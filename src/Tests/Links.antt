-- ===== src/Tests/Links.antt =====
-- Two endpoints on the wire.
use software_on_silicon.Base.{◌≡◌, refl, ◌++◌, true}
use software_on_silicon.Errors.{Outcome, ok, aborted, spin}
use software_on_silicon.Signals.{new_double_hand_shake}
use software_on_silicon.Serial.State.{fpga, mcu, Serial, new_serial, new_com_vars}
use software_on_silicon.Serial.EventLoop.{event_loop}
use software_on_silicon.Serial.Link.{
  Link, client_funct, Linked, begins, client_turns, host_turns, carries_down,
}
use software_on_silicon.Serial.Link.Token.{tokens, Turn, Linked-Turn}
use software_on_silicon.Serial.Link.Channel.{
  client_found, client_shown, host_found, host_shown, down, up,
}
use software_on_silicon.Serial.Link.Fifo.{Linked-found}
use software_on_silicon.Serial.Link.Progress.{Goes, Linked-Goes}
use software_on_silicon.Com.{Com, write_byte}
use software_on_silicon.Sync.{emit_init}
use software_on_silicon.Serial.Invariant.{
  IsBooting, disturb, disturb-IsBooting, port_signal-IsValid,
}
use software_on_silicon.Tests.Samples
use software_on_silicon.Tests.Samples.{fresh, port-IsValid}
use software_on_silicon.Tests.Endpoints.{fresh-IsBooting}

-- Two endpoints whose ports are new.
abbrev new_port : Com
new_port = record Samples.port { signal = new_double_hand_shake }

abbrev unstarted : Serial
unstarted = disturb fresh new_port fresh.block.sync

unstarted-IsBooting : IsBooting unstarted
unfolding new_serial new_com_vars new_double_hand_shake
unstarted-IsBooting =
    disturb-IsBooting fresh new_port fresh.block.sync
      (port_signal-IsValid Samples.port Samples.port.in_buffer new_double_hand_shake refl
        port-IsValid)
      (record { descriptors = refl; shared = refl; lock = refl; memory = refl }) fresh-IsBooting

abbrev at_rest : Link
at_rest = record { client = unstarted; host = unstarted; firstrun = true }

-- The first round: the client is told, sends its first byte, and the host has it.
abbrev started : Link
started = client_funct at_rest

abbrev outcome_of : Serial → Outcome Serial → Serial
outcome_of s (ok t) = t
outcome_of s (aborted v e) = s
outcome_of s spin = s

powered_on : Serial
powered_on = outcome_of started.client (event_loop fpga started.client)

abbrev powered : Link
powered = record started { client = powered_on }

power_on : event_loop fpga started.client ≡ ok powered_on
unfolding powered_on new_serial new_com_vars event_loop client_funct emit_init write_byte
    new_double_hand_shake
power_on = refl

first_round : Linked at_rest (client_funct powered)
first_round =
    carries_down powered (client_turns started powered_on (carries_down at_rest begins) power_on)

at_rest-tokens : tokens at_rest ≡ 1
unfolding tokens new_double_hand_shake
at_rest-tokens = refl

Linked-Turn_example : Turn (client_funct powered)
Linked-Turn_example = Linked-Turn at_rest-tokens first_round

Linked-Goes_example : Goes 8 (client_funct powered)
Linked-Goes_example =
    Linked-Goes 8 unstarted-IsBooting unstarted-IsBooting at_rest-tokens first_round

-- The host's turn.
answered : Serial
unfolding powered_on
answered = outcome_of (client_funct powered).host (event_loop mcu (client_funct powered).host)

host_answer : event_loop mcu (client_funct powered).host ≡ ok answered
unfolding powered_on answered new_serial new_com_vars event_loop client_funct emit_init write_byte
    new_double_hand_shake
host_answer = refl

second_round : Linked at_rest (record (client_funct powered) { host = answered })
second_round = host_turns (client_funct powered) answered first_round host_answer

Linked-found_example :
    let m = record (client_funct powered) { host = answered } in
    (down at_rest ++ client_shown second_round ≡ host_found second_round ++ down m)
    × (up at_rest ++ host_shown second_round ≡ client_found second_round ++ up m)
Linked-found_example =
    Linked-found unstarted-IsBooting unstarted-IsBooting at_rest-tokens second_round
