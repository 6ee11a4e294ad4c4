-- ===== src/Timed/Marks.antt =====
-- `ProcessorScheme` and `ControllerImpl<ProcessorScheme>` of impl/Controller.cpp: two threads that
-- take turns at one flag, which each waits for, uses and clears. Each access to the flag, and each
-- mark that is printed, is a step.
pub mod Turns
pub mod Kept
pub mod Alternation
use Prim.Native.Char.{Char}
use software_on_silicon.Base.{ℕ, ◌-◌, Bool, true, false, not, ◌∷◌, if◌then◌else◌}
use software_on_silicon.Signals.{HandShake, test_and_set, cleared}
use software_on_silicon.Timed.{
  Controller, new_controller, is_requested, ask_waiter, acknowledge_request,
}

-- Where a thread is in its loop of three turns: how many it has still to end, whether it is past the
-- test of the flag in this one, and whether it has printed its mark.
pub record Turn : Type 0 where
  pub left : ℕ
  pub past : Bool
  pub printed : Bool

abbrev pub idle_turn : Turn
idle_turn = record { left = 0; past = false; printed = false }

-- One test of `while (test_and_set())`.
unfoldable pub try_mark : Controller → Turn → Controller × Turn
try_mark c t =
    let (taken, f) = test_and_set c.foreign.notify in
    (record c { foreign = record { notify = f } }, record t { past = not taken })

unfoldable pub put_mark : Char → Controller → Turn → Controller × Turn
put_mark mark c t = (record c { output = mark ∷ c.output }, record t { printed = true })

unfoldable pub free_mark : Controller → Turn → Controller × Turn
free_mark c t = (
  record c { foreign = record { notify = cleared } },
  record { left = t.left - 1; past = false; printed = false },
)

-- The controller with the bus of the light, the two threads, and whether the controller's is in a
-- call of `event_loop` that was requested.
pub record Scheme : Type 0 where
  pub controller : Controller
  pub processor : Turn
  pub control : Turn
  pub busy : Bool

-- The constructor of `ControllerImpl`, and in it that of `ProcessorScheme`, which frees the light.
unfoldable pub new_scheme : HandShake → Scheme
unfolding new_controller
new_scheme signal = record {
  controller = record (new_controller signal) { foreign = record { notify = cleared } };
  processor = idle_turn;
  control = idle_turn;
  busy = false;
}

-- `ProcessorScheme::event_loop`: three turns.
unfoldable pub call_processor : Scheme → Scheme
call_processor s = record s { processor = record (s.processor) { left = 3 } }

-- `ControllerImpl<ProcessorScheme>::event_loop` up to its loop, and from there to its end.
unfoldable pub call_control : Scheme → Scheme
unfolding is_requested ask_waiter
call_control s =
    let (requested, d) = is_requested s.controller in
    if requested
    then (let (acknowledged, e) = ask_waiter d in
        record s {
          controller = e;
          control = record (s.control) { left = if acknowledged then 3 else 0 };
          busy = true;
        })
    else record s { controller = d }

unfoldable pub end_control : Scheme → Scheme
unfolding acknowledge_request
end_control s = record s { controller = acknowledge_request s.controller; busy = false }

abbrev pub with_processor : Scheme → Controller × Turn → Scheme
with_processor s r = record s { controller = r.0; processor = r.1 }

abbrev pub with_control : Scheme → Controller × Turn → Scheme
with_control s r = record s { controller = r.0; control = r.1 }
