-- ===== src/Serial/Frame.antt =====
-- What the IN half of `Serial::event_loop` leaves alone: the flags of the port, which only the
-- handshake touches.
pub mod Outgoing
use software_on_silicon.Base.{
  ℕ, zero, suc, ◌+◌, ◌≡◌, refl, ◌∙◌, arith, Bool, true, false, not, ◌&&◌, ◌||◌, ltb, ◌==◌,
  if◌then◌else◌, Array, Bool-cases, inl, inr, bit_xor,
}
use software_on_silicon.Errors.{ok, ◌>>=◌}
use software_on_silicon.Errors.Yields.{Yields, >>=-Yields, if-Yields, ok-Yields, Yields-weaken}
use software_on_silicon.Signals.{DoubleHandShake}
use software_on_silicon.Com.{Com, read_byte, write_byte}
use software_on_silicon.Sync.{num_ids, emit_init}
use software_on_silicon.Block.{read_object, write_object}
use software_on_silicon.Block.Frame.{
  HasSignal, read_byte-signal, write_byte-signal, read_object-HasSignal, write_object-HasSignal,
}
use software_on_silicon.Serial.State.{Role, fpga, mcu, Serial, put_port}
use software_on_silicon.Serial.Crossover.{
  read_bits, write_bits, send_acknowledge, send_request, receive_signals,
}
use software_on_silicon.Serial.Queries.{
  transfers_pending, first_unsynced, stop_notifier, clear_read_receive, com_hotplug_action,
  com_shutdown_action, com_sighup_action, incoming_shutdown_query, outgoing_sighup_query,
}
use software_on_silicon.Serial.Requests.{
  send_state, send_poweron_request, send_comshutdown_request, send_idle_request,
  send_sighup_request, send_transfer_request,
}
use software_on_silicon.Serial.ReadHook.{
  on_poweron, on_idle, on_shutdown, on_sighup, on_transfer_request, read_hook, transfer_hook,
  acknowledge_hook,
}
use software_on_silicon.Serial.WriteHook.{
  get_first_transfer, find_transfer, get_first_sync_object, try_transfer, try_shutdown,
  try_sync_object, try_sighup, write_hook,
}
use software_on_silicon.Serial.EventLoop.{receive, dispatch, settle_acknowledge, loop_in, loop_out}

abbrev pub flags : Serial → DoubleHandShake
flags s = s.block.uart.signal

read_bits-flags : (role : Role) (s : Serial) (byte : ℕ) → flags (read_bits role s byte) ≡ flags s
unfolding read_bits
read_bits-flags fpga s byte = refl
read_bits-flags mcu s byte = refl

pub send_request-flags : (role : Role) (s : Serial) → flags (send_request role s) ≡ flags s
unfolding send_request
send_request-flags fpga s = refl
send_request-flags mcu s = refl

send_acknowledge-flags : (role : Role) (s : Serial) → flags (send_acknowledge role s) ≡ flags s
unfolding send_acknowledge
send_acknowledge-flags fpga s = ground arith
send_acknowledge-flags mcu s = ground arith

receive_signals-flags : (role : Role) (s : Serial) → flags ((receive_signals role s).2) ≡ flags s
unfolding receive_signals
receive_signals-flags fpga s = ground arith
receive_signals-flags mcu s = ground arith

read_hook-flags :
    (role : Role) (s : Serial) (byte : ℕ) → Yields (λ t. flags t ≡ flags s) (read_hook role s byte)
unfolding read_hook com_hotplug_action clear_read_receive com_shutdown_action com_sighup_action
    stop_notifier
read_hook-flags fpga s byte = ok-Yields _ _ λ t e. ground (arith, e)
read_hook-flags mcu s byte = ok-Yields _ _ λ t e. ground (arith, e)

transfer_hook-flags :
    (role : Role) (s : Serial) → Yields (λ t. flags t ≡ flags s) (transfer_hook role s)
unfolding transfer_hook send_acknowledge
transfer_hook-flags fpga s = ok-Yields _ _ λ t e. ground (arith, e)
transfer_hook-flags mcu s = ok-Yields _ _ λ t e. ground (arith, e)

settle_acknowledge-flags : (s : Serial) → Yields (λ t. flags t ≡ flags s) (settle_acknowledge s)
unfolding settle_acknowledge
settle_acknowledge-flags s = ok-Yields _ _ λ t e. ground (arith, e)

receive-flags : (role : Role) (s : Serial) → Yields (λ r. flags (r.1) ≡ flags s) (receive role s)
unfolding receive
receive-flags role s =
    >>=-Yields (λ r. r.1.signal ≡ flags s) _ (read_byte s.block.uart) _
      (read_byte-signal s.block.uart)
      (λ r h. Yields.yields _ (
        receive_signals-flags role (read_bits role (put_port s (r.1)) (r.0))
        ∙ read_bits-flags role (put_port s (r.1)) (r.0)
        ∙ h))

dispatch-flags :
    (role : Role) (s : Serial) (byte : ℕ) → Yields (λ t. flags t ≡ flags s) (dispatch role s byte)
unfolding dispatch
dispatch-flags role s byte =
    if-Yields _ s.vars.received_request _ _ (λ _. read_hook-flags role s byte)
      (λ _.
        >>=-Yields (HasSignal (flags s)) _ _ _ (read_object-HasSignal s.block byte)
          (λ b h. Yields.yields _ h))

-- The IN half.
pub loop_in-flags : (role : Role) (s : Serial) → Yields (λ t. flags t ≡ flags s) (loop_in role s)
unfolding loop_in
loop_in-flags role s =
    if-Yields _ s.first_run _ _
      (λ _.
        >>=-Yields (λ y. Unit) _ (emit_init s.block.sync) _ (ok-Yields _ _ λ _ _. tt)
          (λ y _. Yields.yields _ refl))
      (λ _.
        >>=-Yields (λ r. flags (r.1) ≡ flags s) (λ t. flags t ≡ flags s) (receive role s) _
          (receive-flags role s)
          λ r hr.
            >>=-Yields (λ t. flags t ≡ flags (r.1)) (λ t. flags t ≡ flags s)
              (dispatch role (r.1) (r.0)) _ (dispatch-flags role (r.1) (r.0))
              λ t ht.
                >>=-Yields (λ u. flags u ≡ flags t) (λ t. flags t ≡ flags s) (transfer_hook role t)
                  _ (transfer_hook-flags role t)
                  λ u hu.
                    Yields-weaken (λ v. flags v ≡ flags u) (λ t. flags t ≡ flags s) _
                      (λ v hv. hv ∙ hu ∙ ht ∙ hr) (settle_acknowledge-flags u))
