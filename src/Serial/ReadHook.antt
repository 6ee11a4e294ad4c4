-- ===== src/Serial/ReadHook.antt =====
-- The IN half of `Serial`'s event loop: `read_hook`, `transfer_hook` and `acknowledge_hook`.
use software_on_silicon.Base.{ℕ, true, not, ◌&&◌, ◌||◌, ltb, ◌==◌, if◌then◌else◌}
use software_on_silicon.Errors.{Outcome, ok, logic_error, runtime_error}
use software_on_silicon.Errors.Code.{ErrorCode}
use software_on_silicon.Wire.{shift_left, shift_right}
use software_on_silicon.Sync.{num_ids, emit_transfer, emit_readlocked}
use software_on_silicon.Serial.State.{
  Role, Serial, put_sync, put_read_lock, put_transfer, new_com_vars, poweron, shutdown, idle,
  sighup,
}
use software_on_silicon.Serial.Crossover.{send_acknowledge}
use software_on_silicon.Serial.Queries.{com_hotplug_action, com_shutdown_action, com_sighup_action}
use software_on_silicon.Serial.Requests.{receive_transfer_request}

-- `NUM_SIGNALBITS`
abbrev pub num_signalbits : ℕ
num_signalbits = 2

unfoldable pub on_poweron : Role → Serial → Outcome Serial
unfolding new_com_vars com_hotplug_action
on_poweron role s =
    if s.vars.acknowledge_requested || s.vars.received_acknowledge
    then runtime_error ErrorCode.previous_transfer_requests_were_not_cleared
    else com_hotplug_action role (record s { vars = new_com_vars })

unfoldable pub on_idle : Serial → Serial
on_idle s =
    if s.vars.received_sighup
    then record s { vars = record (s.vars) { received_idle = true } }
    else s

unfoldable pub on_shutdown : Role → Serial → Outcome Serial
unfolding com_shutdown_action
on_shutdown role s =
    if s.vars.received_sighup
    then logic_error ErrorCode.not_idle_after_sighup
    else if not s.vars.received_com_shutdown
    then (let t = com_shutdown_action role s in
        ok (record t { vars = record (t.vars) { received_com_shutdown = true } }))
    else logic_error ErrorCode.duplicate_com_shutdown

unfoldable pub on_sighup : Role → Serial → Outcome Serial
unfolding com_sighup_action
on_sighup role s =
    if not s.vars.received_sighup
    then (let t = com_sighup_action role s in
        ok (record t { vars = record (t.vars) { received_sighup = true } }))
    else logic_error ErrorCode.duplicate_sighup

unfoldable pub on_transfer_request : Serial → ℕ → Outcome Serial
unfolding receive_transfer_request
on_transfer_request s code =
    if s.vars.received_sighup
    then logic_error ErrorCode.not_idle_after_sighup
    else ok (record s { incoming_request = receive_transfer_request code })

unfoldable pub state_code : ℕ → ℕ
state_code byte = shift_right (shift_left 8 byte num_signalbits) num_signalbits

unfoldable pub read_hook : Role → Serial → ℕ → Outcome Serial
unfolding on_poweron on_idle on_shutdown on_sighup on_transfer_request state_code
read_hook role s byte =
    let code = state_code byte in
    if code == poweron
    then on_poweron role s
    else if code == idle
    then ok (on_idle s)
    else if code == shutdown
    then on_shutdown role s
    else if code == sighup
    then on_sighup role s
    else on_transfer_request s code

-- A transfer of our own that we have asked for in the last round goes before the other side's.
unfoldable pub transfer_hook : Role → Serial → Outcome Serial
unfolding emit_readlocked send_acknowledge
transfer_hook role s =
    let id = s.incoming_request in
    if ltb id num_ids && not (id == s.waiting_confirmation)
    then (if s.block.read_lock id
        then runtime_error ErrorCode.duplicate_readlock_request
        else if not (s.block.transfer id)
        then ok (
            send_acknowledge role
              (put_read_lock (put_sync s (emit_readlocked s.block.sync id)) id true))
        else logic_error ErrorCode.synced_objects_are_not_supposed_to_havea_transfer)
    else ok s

-- The inner `else` of the source, after the two reports, is not reached.
unfoldable pub acknowledge_hook : Serial → Outcome Serial
unfolding emit_transfer
acknowledge_hook s =
    let id = s.waiting_confirmation in
    if ltb id num_ids
    then (if s.block.read_lock id
        then logic_error ErrorCode.received_a_transfer_acknowledge_on_readlocked_object
        else if s.block.transfer id
        then logic_error ErrorCode.received_a_duplicate_transfer_acknowledge_on_object_in_transfer
        else (let t = put_transfer s id true in ok (put_sync t (emit_transfer t.block.sync id))))
    else ok s
