-- ===== src/Serial/Incoming.antt =====
-- The IN half of the event loop keeps the invariant of an endpoint.
use software_on_silicon.Base.{
  ℕ, ◌≡◌, refl, ◌∙◌, arith, Bool, true, false, not, ◌&&◌, ◌||◌, ltb, ◌==◌, inl, inr, update, get_or,
}
use software_on_silicon.Errors.{Safe, returns, aborts, >>=-Safe, if-Safe}
use software_on_silicon.Com.Offsets.{read_byte_stays}
use software_on_silicon.Sync.{Sync, num_ids, emit_transfer, emit_readlocked}
use software_on_silicon.Sync.Laws.{Framed, emit_interrupted-Framed}
use software_on_silicon.Block.ReadSound.{read_object-IsSound}
use software_on_silicon.Block.Change.{IsSound-sync, IsSound-read_lock, IsSound-transfer}
use software_on_silicon.Serial.State.{
  poweron, idle, shutdown, sighup, Role, fpga, mcu, Serial, put_sync, put_read_lock,
}
use software_on_silicon.Serial.Crossover.{read_bits, receive_signals, send_acknowledge}
use software_on_silicon.Serial.Queries.{com_shutdown_action}
use software_on_silicon.Serial.ReadHook.{
  state_code, on_poweron, on_idle, on_shutdown, on_sighup, on_transfer_request, read_hook,
  transfer_hook, acknowledge_hook,
}
use software_on_silicon.Serial.EventLoop.{receive, dispatch, settle_acknowledge, loop_in}
use software_on_silicon.Serial.Ready.{IsReady, IsReady-same}

pub receive_signals_lem :
    (role : Role) (s : Serial)
    → ((receive_signals role s).2.block ≡ s.block)
      × ((receive_signals role s).2.first_run ≡ s.first_run)
unfolding receive_signals
receive_signals_lem fpga s = (ground arith, ground arith)
receive_signals_lem mcu s = (ground arith, ground arith)

read_bits_lem :
    (role : Role) (s : Serial) (byte : ℕ)
    → ((read_bits role s byte).block ≡ s.block) × ((read_bits role s byte).first_run ≡ s.first_run)
unfolding read_bits
read_bits_lem fpga s byte = (refl, refl)
read_bits_lem mcu s byte = (refl, refl)

receive-IsReady :
    (role : Role) (s : Serial) → IsReady s → Safe (λ r. IsReady (r.1)) (receive role s)
unfolding receive
receive-IsReady role s r =
    let byte = get_or s.block.uart.in_buffer 0 0 in
    let t = read_bits role s byte in
    let (b, f) = receive_signals_lem role t in
    let (b', f') = read_bits_lem role s byte in
    rw (read_byte_stays s.block.uart r.sound.port)
      (returns _ (record { started = f ∙ f' ∙ r.started; sound = rw (b ∙ b') r.sound }))

on_poweron-IsReady : (role : Role) (s : Serial) → IsReady s → Safe IsReady (on_poweron role s)
unfolding on_poweron
on_poweron-IsReady fpga s r =
    if-Safe IsReady (s.vars.acknowledge_requested || s.vars.received_acknowledge) _ _
      (λ _. aborts _ _)
      (λ _.
        if-Safe IsReady (s.block.receive_lock || not (s.block.codec.read_count == 0)) _ _
          (λ _. aborts _ _) (λ _. returns _ (IsReady-same s _ refl refl r)))
on_poweron-IsReady mcu s r =
    if-Safe IsReady (s.vars.acknowledge_requested || s.vars.received_acknowledge) _ _
      (λ _. aborts _ _)
      (λ _.
        if-Safe IsReady (s.block.receive_lock || not (s.block.codec.read_count == 0)) _ _
          (λ _. aborts _ _) (λ _. returns _ (IsReady-same s _ refl refl r)))

on_idle-IsReady : (s : Serial) → IsReady s → IsReady (on_idle s)
unfolding on_idle
on_idle-IsReady s r = IsReady-same s (on_idle s) (ground arith) (ground arith) r

com_shutdown_action-IsReady :
    (role : Role) (s : Serial) → IsReady s → IsReady (com_shutdown_action role s)
unfolding com_shutdown_action
com_shutdown_action-IsReady fpga s r = r
com_shutdown_action-IsReady mcu s r = record {
  started = r.started;
  sound = IsSound-sync s.block _ (emit_interrupted-Framed s.block.sync) r.sound;
}

on_shutdown-IsReady : (role : Role) (s : Serial) → IsReady s → Safe IsReady (on_shutdown role s)
unfolding on_shutdown
on_shutdown-IsReady role s r =
    let t = com_shutdown_action role s in
    let r' = com_shutdown_action-IsReady role s r in
    if-Safe IsReady s.vars.received_sighup _ _ (λ _. aborts _ _)
      (λ _.
        if-Safe IsReady (not s.vars.received_com_shutdown) _ _
          (λ _. returns _ (IsReady-same t _ refl refl r')) (λ _. aborts _ _))

on_sighup-IsReady : (role : Role) (s : Serial) → IsReady s → Safe IsReady (on_sighup role s)
unfolding on_sighup
on_sighup-IsReady fpga s r =
    if-Safe IsReady (not s.vars.received_sighup) _ _ (λ _. returns _ (IsReady-same s _ refl refl r))
      (λ _. aborts _ _)
on_sighup-IsReady mcu s r =
    if-Safe IsReady (not s.vars.received_sighup) _ _ (λ _. returns _ (IsReady-same s _ refl refl r))
      (λ _. aborts _ _)

on_transfer_request-IsReady :
    (s : Serial) (code : ℕ) → IsReady s → Safe IsReady (on_transfer_request s code)
unfolding on_transfer_request
on_transfer_request-IsReady s code r =
    if-Safe IsReady s.vars.received_sighup _ _ (λ _. aborts _ _)
      (λ _. returns _ (IsReady-same s _ refl refl r))

read_hook-IsReady :
    (role : Role) (s : Serial) (byte : ℕ) → IsReady s → Safe IsReady (read_hook role s byte)
unfolding read_hook
read_hook-IsReady role s byte r =
    if-Safe IsReady (state_code byte == poweron) _ _ (λ _. on_poweron-IsReady role s r)
      (λ _.
        if-Safe IsReady (state_code byte == idle) _ _ (λ _. returns _ (on_idle-IsReady s r))
          (λ _.
            if-Safe IsReady (state_code byte == shutdown) _ _ (λ _. on_shutdown-IsReady role s r)
              (λ _.
                if-Safe IsReady (state_code byte == sighup) _ _ (λ _. on_sighup-IsReady role s r)
                  (λ _. on_transfer_request-IsReady s _ r))))

dispatch-IsReady :
    (role : Role) (s : Serial) (byte : ℕ) → IsReady s → Safe IsReady (dispatch role s byte)
unfolding dispatch
dispatch-IsReady role s byte r =
    if-Safe IsReady s.vars.received_request _ _ (λ _. read_hook-IsReady role s byte r)
      (λ _. elim ((read_object-IsSound s.block byte r.sound).0) [
        | inl (b, e, v, rest, kept) ↦ rw e (returns _ (record { started = r.started; sound = v }))
        | inr (e, free, none_left) ↦ rw e (aborts _ _)
      ])

send_acknowledge_lem :
    (role : Role) (s : Serial)
    → ((send_acknowledge role s).block ≡ s.block)
      × ((send_acknowledge role s).first_run ≡ s.first_run)
unfolding send_acknowledge
send_acknowledge_lem fpga s = (ground arith, ground arith)
send_acknowledge_lem mcu s = (ground arith, ground arith)

emit_readlocked-Framed : (y : Sync) (id : ℕ) → Framed y (emit_readlocked y id)
unfolding emit_readlocked
emit_readlocked-Framed y id = record {
  descriptors = refl;
  shared = refl;
  lock = refl;
  memory = refl;
}

emit_transfer-Framed : (y : Sync) (id : ℕ) → Framed y (emit_transfer y id)
unfolding emit_transfer
emit_transfer-Framed y id = record { descriptors = refl; shared = refl; lock = refl; memory = refl }

transfer_hook-IsReady : (role : Role) (s : Serial) → IsReady s → Safe IsReady (transfer_hook role s)
unfolding transfer_hook
transfer_hook-IsReady role s r =
    let id = s.incoming_request in
    let y = emit_readlocked s.block.sync id in
    let t = put_read_lock (put_sync s y) id true in
    let (b, f) = send_acknowledge_lem role t in
    if-Safe IsReady (ltb id num_ids && not (id == s.waiting_confirmation)) _ _
      (λ _.
        if-Safe IsReady (s.block.read_lock id) _ _ (λ _. aborts _ _)
          (λ _.
            if-Safe IsReady (not (s.block.transfer id)) _ _
              (λ still. returns _ (record {
                started = f ∙ r.started;
                sound = rw b (
                    IsSound-read_lock (record (s.block) { sync = y }) id (ground (arith, still))
                      (IsSound-sync s.block y (emit_readlocked-Framed s.block.sync id) r.sound));
              }))
              (λ _. aborts _ _)))
      (λ _. returns _ r)

acknowledge_hook-IsReady : (s : Serial) → IsReady s → Safe IsReady (acknowledge_hook s)
unfolding acknowledge_hook
acknowledge_hook-IsReady s r =
    let id = s.waiting_confirmation in
    if-Safe IsReady (ltb id num_ids) _ _
      (λ _.
        if-Safe IsReady (s.block.read_lock id) _ _ (λ _. aborts _ _)
          (λ open_lock.
            if-Safe IsReady (s.block.transfer id) _ _ (λ _. aborts _ _)
              (λ _. returns _ (record {
                started = r.started;
                sound =
                    IsSound-sync (record (s.block) { transfer = update s.block.transfer id true })
                      (emit_transfer s.block.sync id) (emit_transfer-Framed s.block.sync id)
                      (IsSound-transfer s.block id open_lock r.sound);
              }))))
      (λ _. returns _ r)

settle_acknowledge-IsReady : (s : Serial) → IsReady s → Safe IsReady (settle_acknowledge s)
unfolding settle_acknowledge
settle_acknowledge-IsReady s r =
    if-Safe IsReady s.vars.received_acknowledge _ _
      (λ _.
        if-Safe IsReady (not s.vars.acknowledge_requested) _ _ (λ _. aborts _ _)
          (λ _.
            >>=-Safe IsReady IsReady (acknowledge_hook s) _ (acknowledge_hook-IsReady s r)
              (λ t k. returns _ (IsReady-same t _ refl refl k))))
      (λ _. if-Safe IsReady s.vars.acknowledge_requested _ _ (λ _. aborts _ _) (λ _. returns _ r))

pub loop_in-IsReady : (role : Role) (s : Serial) → IsReady s → Safe IsReady (loop_in role s)
unfolding loop_in
loop_in-IsReady role s r =
    if-Safe IsReady s.first_run _ _ (λ h. absurd (clash r.started h))
      (λ _.
        >>=-Safe (λ a. IsReady (a.1)) IsReady (receive role s) _ (receive-IsReady role s r)
          (λ a ra.
            >>=-Safe IsReady IsReady (dispatch role (a.1) (a.0)) _
              (dispatch-IsReady role (a.1) (a.0) ra)
              (λ t rt.
                >>=-Safe IsReady IsReady (transfer_hook role t) _ (transfer_hook-IsReady role t rt)
                  (λ u ru. settle_acknowledge-IsReady u ru))))
  where
    clash : {v : Bool} → v ≡ false → v ≡ true → ⊥
    clash e h = cc
