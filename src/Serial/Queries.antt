-- ===== src/Serial/Queries.antt =====
-- What `Serial` asks of its object tables, and the queries and actions that `FPGA` and `MCU` of
-- impl/MCUFPGA.cpp override.
use software_on_silicon.Base.{
  ℕ, zero, suc, ◌+◌, Bool, true, false, not, ◌&&◌, ◌||◌, ◌==◌, if◌then◌else◌, Array,
}
use software_on_silicon.Errors.{Outcome, ok, runtime_error}
use software_on_silicon.Errors.Code.{ErrorCode}
use software_on_silicon.Sync.{Sync, check_sync, emit_interrupted}
use software_on_silicon.Serial.State.{Role, fpga, mcu, Serial, put_sync}

-- The loop of `writes_pending` and `reads_pending`: `n` rounds from id `j` on.
unfoldable pub any_flag : ℕ → ℕ → Array Bool → Bool
any_flag zero j flags = false
any_flag (suc n) j flags = if flags j then true else any_flag n (j + 1) flags

unfoldable pub writes_pending : Serial → Bool
unfolding any_flag
writes_pending s = any_flag s.block.sync.descriptors.count 0 s.block.transfer

unfoldable pub reads_pending : Serial → Bool
unfolding any_flag
reads_pending s = any_flag s.block.sync.descriptors.count 0 s.block.read_lock

-- The first id from `j` on, within `n` rounds, that asks for a transfer and is not in one, with
-- the switches as `check_sync` leaves them: `num_ids` stands for none.
unfoldable pub first_unsynced : ℕ → ℕ → Array Bool → Sync → Bool × ℕ × Sync
unfolding check_sync
first_unsynced zero j transfer y = (false, j, y)
first_unsynced (suc n) j transfer y =
    let (asked, y') = check_sync y j in
    let rest = first_unsynced n (j + 1) transfer y' in
    if asked && not (transfer j) then (true, j, y') else rest

unfoldable pub transfers_pending : Serial → Bool × Serial
unfolding first_unsynced
transfers_pending s =
    let (found, j, y) =
      first_unsynced s.block.sync.descriptors.count 0 s.block.transfer s.block.sync in
    (found, put_sync s y)

-- `stop_notifier`.
unfoldable pub stop_notifier : Serial → Serial
unfolding emit_interrupted
stop_notifier s =
    let t = put_sync s (emit_interrupted s.block.sync) in
    record t { vars = record (t.vars) { descendants_notified = true } }

-- The rest of the function, after the first of its reports, is not reached.
unfoldable pub clear_read_receive : Serial → Outcome Serial
clear_read_receive s =
    if s.block.receive_lock || not (s.block.codec.read_count == 0)
    then runtime_error ErrorCode.hotplug_after_unexpected_shutdown
    else ok s

-- `com_hotplug_action`, `com_shutdown_action` and `com_sighup_action`.
unfoldable pub com_hotplug_action : Role → Serial → Outcome Serial
unfolding clear_read_receive
com_hotplug_action fpga s = clear_read_receive s
com_hotplug_action mcu s = clear_read_receive s

unfoldable pub com_shutdown_action : Role → Serial → Serial
unfolding stop_notifier
com_shutdown_action fpga s = s
com_shutdown_action mcu s = stop_notifier s

unfoldable pub com_sighup_action : Role → Serial → Serial
com_sighup_action fpga s = s
com_sighup_action mcu s = s

unfoldable pub exit_query : Role → Serial → Bool
exit_query fpga s = s.vars.sent_sighup
exit_query mcu s = s.vars.sent_sighup

unfoldable pub handshake_query : Role → Serial → Bool
handshake_query fpga s = not s.vars.sent_sighup
handshake_query mcu s = true

-- The conditions on the flags that follow the one on pending transfers.
abbrev quiet_link : Serial → Bool
quiet_link s =
    not s.vars.acknowledge_requested
    && (not s.vars.received_acknowledge && s.vars.descendants_notified)

unfoldable pub incoming_shutdown_query : Role → Serial → Bool × Serial
unfolding transfers_pending
incoming_shutdown_query fpga s =
    let (pending, t) = transfers_pending s in (not pending && quiet_link t, t)
incoming_shutdown_query mcu s =
    let (pending, t) = transfers_pending s in
    if s.vars.received_com_shutdown then (not pending && quiet_link t, t) else (false, s)

unfoldable pub outgoing_sighup_query : Role → Serial → Bool
unfolding reads_pending writes_pending
outgoing_sighup_query fpga s =
    s.vars.sent_com_shutdown
    && (s.vars.received_com_shutdown && (not (reads_pending s) && not (writes_pending s)))
outgoing_sighup_query mcu s =
    s.vars.received_sighup && (not (reads_pending s) && not (writes_pending s))

-- The destructor of `Serial`.
unfoldable pub destroy_serial : Serial → Outcome Serial
unfolding reads_pending
destroy_serial s =
    if reads_pending s
    then runtime_error ErrorCode.reads_pending_after_comthread_destruction
    else ok s
