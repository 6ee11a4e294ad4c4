-- ===== src/Timed.antt =====
-- include/software-on-silicon/simulation_helpers.hpp, impl/Controller.cpp and impl/EventLoop.cpp:
-- the timer, the light that blinks, and the controllers that print what they find.
pub mod Counts
pub mod Marks
pub mod Exclusion
use Prim.Native.Char.{Char}
use software_on_silicon.Base.{ℕ, zero, suc, Bool, not, if◌then◌else◌, List, [], ◌∷◌, ◌++◌}
use software_on_silicon.Signals.{
  Notify, new_notify, HandShake, new_hand_shake, test_and_set, cleared, raised,
}

-- `Timer`: the signal of its bus, and how often it has run, an `int` that is taken to stay in range.
-- The durations that it sums up for its report are left out.
pub record Timer : Type 0 where
  pub signal : HandShake
  pub run_count : ℕ

-- `Timer::event_loop`. `operator()` takes time and nothing else.
unfoldable pub timer_loop : Timer → Timer
timer_loop t =
    let (idle, f) = test_and_set t.signal.updated in
    if not idle
    then record t {
      signal = record (t.signal) { updated = f; acknowledge = cleared };
      run_count = suc t.run_count;
    }
    else record t { signal = record (t.signal) { updated = f } }

-- `event_loop` of `NotifyImpl` and of `BlinkLoop`: the signal during the first pause and during the
-- second.
unfoldable pub notify_loop : Notify → Notify × Notify
notify_loop n = (record n { notify = cleared }, record n { notify = raised })

unfoldable pub blink_loop : Notify → Notify × Notify
blink_loop n = (record n { notify = cleared }, record n { notify = raised })

-- `ControllerImpl`, with what it has printed last first.
pub record Controller : Type 0 where
  pub intrinsic : HandShake
  pub waiter : Timer
  pub foreign : Notify
  pub output : List Char

-- The constructor, which makes the waiter and the bus of the light.
unfoldable pub new_controller : HandShake → Controller
unfolding new_hand_shake new_notify
new_controller signal = record {
  intrinsic = signal;
  waiter = record { signal = new_hand_shake; run_count = 0 };
  foreign = new_notify;
  output = [];
}

-- The request on `_intrinsic`, the request to the waiter, and the test of its acknowledge, which
-- both controllers begin with.
unfoldable pub is_requested : Controller → Bool × Controller
is_requested c =
    let (idle, f) = test_and_set c.intrinsic.updated in
    (not idle, record c { intrinsic = record (c.intrinsic) { updated = f } })

unfoldable pub ask_waiter : Controller → Bool × Controller
ask_waiter c =
    let asked = record (c.waiter.signal) { updated = cleared } in
    let (waiting, f) = test_and_set asked.acknowledge in
    (
      not waiting,
      record c { waiter = record (c.waiter) { signal = record asked { acknowledge = f } } },
    )

unfoldable pub acknowledge_request : Controller → Controller
acknowledge_request c = record c { intrinsic = record (c.intrinsic) { acknowledge = cleared } }

-- The light is on when the flag is clear; the test sets the flag, and it is cleared again.
unfoldable pub print_light : Controller → Controller
print_light c =
    let (off, f) = test_and_set c.foreign.notify in
    if not off
    then record c { foreign = record { notify = cleared }; output = "*" ∷ c.output }
    else record c { foreign = record { notify = f }; output = "_" ∷ c.output }

-- `ControllerImpl<NotifyImpl>::event_loop`
unfoldable pub control_light : Controller → Controller
unfolding is_requested ask_waiter print_light acknowledge_request
control_light c =
    let (requested, d) = is_requested c in
    if requested
    then (let (acknowledged, e) = ask_waiter d in
        acknowledge_request (if acknowledged then print_light e else e))
    else d
