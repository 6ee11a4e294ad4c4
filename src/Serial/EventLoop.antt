-- ===== src/Serial/EventLoop.antt =====
-- `Serial::event_loop`: one handshake of an endpoint.
use software_on_silicon.Base.{ℕ, Bool, false, not, if◌then◌else◌}
use software_on_silicon.Errors.{Outcome, ok, logic_error, runtime_error, ◌>>=◌}
use software_on_silicon.Errors.Code.{ErrorCode}
use software_on_silicon.Signals.{test_and_set, cleared}
use software_on_silicon.Com.{read_byte}
use software_on_silicon.Sync.{num_ids, emit_init, trigger_resolve}
use software_on_silicon.Block.{read_object, write_object}
use software_on_silicon.Serial.State.{Role, Serial, put_sync, put_port}
use software_on_silicon.Serial.Crossover.{read_bits, write_bits, receive_signals}
use software_on_silicon.Serial.Queries.{handshake_query}
use software_on_silicon.Serial.Requests.{send_idle_request}
use software_on_silicon.Serial.ReadHook.{read_hook, transfer_hook, acknowledge_hook}
use software_on_silicon.Serial.WriteHook.{write_hook}

-- `handshake`: whether the other side has updated.
unfoldable pub handshake : Serial → Bool × Serial
handshake s =
    let c = s.block.uart in
    let (waiting, f) = test_and_set c.signal.updated in
    (not waiting, put_port s (record c { signal = record (c.signal) { updated = f } }))

unfoldable pub handshake_ack : Serial → Serial
unfolding trigger_resolve
handshake_ack s =
    let t = put_sync s (trigger_resolve s.block.sync) in
    let c = t.block.uart in
    put_port t (record c { signal = record (c.signal) { acknowledge = cleared } })

-- The byte, its signals, and what they announce.
unfoldable pub receive : Role → Serial → Outcome (ℕ × Serial)
unfolding read_bits receive_signals read_byte
receive role s = read_byte s.block.uart >>= λ r.
    let (request, acknowledge, t) =
      receive_signals role (read_bits role (put_port s (r.1)) (r.0)) in
    ok (
      r.0,
      record t {
        vars = record (t.vars) {
          received_request = request;
          received_acknowledge = acknowledge;
          received_idle = false;
        };
        incoming_request = num_ids;
      },
    )

unfoldable pub dispatch : Role → Serial → ℕ → Outcome Serial
unfolding read_hook
dispatch role s byte =
    if s.vars.received_request
    then read_hook role s byte
    else read_object s.block byte >>= λ b. ok (record s { block = b })

unfoldable pub settle_acknowledge : Serial → Outcome Serial
unfolding acknowledge_hook
settle_acknowledge s =
    if s.vars.received_acknowledge
    then (if not s.vars.acknowledge_requested
        then logic_error ErrorCode.acknowledge_received_without_any_request
        else acknowledge_hook s >>= λ t.
            ok (record t { vars = record (t.vars) { acknowledge_requested = false } }))
    else if s.vars.acknowledge_requested
    then runtime_error ErrorCode.previous_transfer_has_not_been_acknowledged
    else ok s

unfoldable pub loop_in : Role → Serial → Outcome Serial
unfolding receive dispatch transfer_hook settle_acknowledge
loop_in role s =
    if s.first_run
    then (emit_init s.block.sync >>= λ y. ok (put_sync s y))
    else receive role s >>= λ r.
        dispatch role (r.1) (r.0) >>= λ t. transfer_hook role t >>= λ u. settle_acknowledge u

unfoldable pub loop_out : Role → Serial → Outcome Serial
unfolding write_hook write_bits send_idle_request
loop_out role s = write_hook role (record s { waiting_confirmation = num_ids }) >>= λ h.
    if h.0
    then ok (h.1)
    else write_object (write_bits role (h.1)) ((h.1).block) >>= λ w.
        let t = record (h.1) { block = w.1 } in if w.0 then ok t else send_idle_request role t

unfoldable pub event_loop : Role → Serial → Outcome Serial
unfolding handshake handshake_ack loop_in loop_out handshake_query
event_loop role s =
    if handshake_query role s
    then (let (ready, t) = handshake s in
        if ready
        then (loop_in role t >>= λ u. loop_out role u >>= λ v. ok (handshake_ack v))
        else ok t)
    else ok s
