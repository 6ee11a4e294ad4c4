-- ===== src/Tests/Marks.antt =====
-- The two threads at the light of impl/Controller.cpp, from a request of the client.
use software_on_silicon.Base.{ℕ, ◌*◌, ◌≡◌, refl, arith, true, false}
use software_on_silicon.Signals.{HandShake, cleared}
use software_on_silicon.Timed.Marks.{
  Scheme, new_scheme, call_processor, call_control, try_mark, put_mark, free_mark, with_processor,
  with_control,
}
use software_on_silicon.Timed.Marks.Alternation.{
  Alternates, begins, calls, processor_tries, processor_prints, processor_frees, controls,
  control_tries, others, Alternates-Mixed,
}
use software_on_silicon.Timed.Marks.Turns.{begun, Mixed}

-- A request of the client; the processor prints its first mark.
abbrev request : HandShake
request = record { updated = false; acknowledge = true }

abbrev called : Scheme
called = call_processor (new_scheme request)

abbrev tried : Scheme
tried = with_processor called (try_mark called.controller called.processor)

abbrev shown : Scheme
shown = with_processor tried (put_mark "*" tried.controller tried.processor)

abbrev freed : Scheme
freed = with_processor shown (free_mark shown.controller shown.processor)

freed-Alternates : Alternates request 1 0 freed
unfolding call_processor try_mark put_mark free_mark new_scheme
freed-Alternates =
    processor_frees shown
      (processor_prints tried
        (processor_tries called (calls (new_scheme request) begins refl) (omega arith) refl) refl
        refl)
      refl

-- The timer has run, and the controller takes the light.
abbrev timed : Scheme
timed = record freed {
  controller = record (freed.controller) {
    intrinsic = request;
    waiter = record { signal = record { updated = true; acknowledge = false }; run_count = 1 };
  };
}

abbrev controlled : Scheme
controlled = call_control timed

abbrev lit : Scheme
lit = with_control controlled (try_mark controlled.controller controlled.control)

lit-Alternates : Alternates request 1 1 lit
unfolding call_processor call_control try_mark put_mark free_mark new_scheme begun
lit-Alternates =
    control_tries controlled
      (controls timed 1
        (others freed request
          (record { signal = record { updated = true; acknowledge = false }; run_count = 1 })
          freed-Alternates)
        refl refl)
      (omega arith) refl

Alternates-Mixed_example :
    (lit.processor.past ≡ true → lit.control.past ≡ false)
    × (p : ℕ) × (q : ℕ) × Mixed p q lit.controller.output
    × (lit.processor.left ≡ 0 → p ≡ 3 * 1)
    × (lit.control.left ≡ 0 → q ≡ 3 * 1)
    × (lit.busy ≡ false → q ≡ 3 * 1)
    × (lit.processor.left ≡ 0 → lit.control.left ≡ 0 → lit.controller.foreign.notify ≡ cleared)
Alternates-Mixed_example = Alternates-Mixed lit-Alternates
