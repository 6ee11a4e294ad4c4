-- ===== src/Serial/Requests.antt =====
-- The request bytes that `Serial` sends: the states, and the ids of objects to be transferred.
use software_on_silicon.Base.{ℕ, ◌+◌, ◌-◌, ◌%◌, true, false, ltb, if◌then◌else◌, bit_xor}
use software_on_silicon.Errors.{Outcome, ok, runtime_error, ◌>>=◌}
use software_on_silicon.Errors.Code.{ErrorCode}
use software_on_silicon.Com.{write_byte}
use software_on_silicon.Sync.{num_ids}
use software_on_silicon.Serial.State.{
  Role, Serial, put_port, poweron, shutdown, idle, sighup, lower_states,
}
use software_on_silicon.Serial.Crossover.{write_bits, send_request}

-- `send_request(); write_bits(id_bits); write_byte(id_bits)`.
unfoldable pub send_state : Role → ℕ → Serial → Outcome Serial
unfolding write_bits send_request
send_state role code s =
    let t = send_request role s in
    write_byte t.block.uart (write_bits role t code) >>= λ c. ok (put_port t c)

unfoldable pub send_poweron_request : Role → Serial → Outcome Serial
unfolding send_state
send_poweron_request role s = send_state role poweron s >>= λ t. ok (record t { first_run = false })

unfoldable pub send_comshutdown_request : Role → Serial → Outcome Serial
unfolding send_state
send_comshutdown_request role s = send_state role shutdown s >>= λ t.
    ok (record t { vars = record (t.vars) { sent_com_shutdown = true } })

unfoldable pub send_idle_request : Role → Serial → Outcome Serial
unfolding send_state
send_idle_request role s = send_state role idle s >>= λ t.
    ok (if t.vars.sent_sighup then record t { vars = record (t.vars) { sent_idle = true } } else t)

unfoldable pub send_sighup_request : Role → Serial → Outcome Serial
unfolding send_state
send_sighup_request role s = send_state role sighup s >>= λ t.
    ok (record t { vars = record (t.vars) { sent_sighup = true } })

unfoldable pub send_transfer_request : Role → ℕ → Serial → Outcome Serial
unfolding write_bits send_request
send_transfer_request role item s =
    if ltb item num_ids
    then (let t = send_request role s in
        let id_bits = bit_xor (write_bits role t 0) ((item + lower_states) % 256) in
        write_byte t.block.uart id_bits >>= λ c. ok (put_port t c))
    else runtime_error ErrorCode.invalid_dma_object_id

-- An `unsigned char` subtraction.
unfoldable pub receive_transfer_request : ℕ → ℕ
receive_transfer_request code = (code + 256 - lower_states) % 256
