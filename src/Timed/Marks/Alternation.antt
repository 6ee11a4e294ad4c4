-- ===== src/Timed/Marks/Alternation.antt =====
-- What the two threads at the light of impl/Controller.cpp print between them.
use software_on_silicon.Base.{ℕ, suc, ◌+◌, ◌*◌, ◌<◌, ◌≡◌, refl, arith, true, false}
use software_on_silicon.Signals.{HandShake, cleared}
use software_on_silicon.Timed.{Timer, new_controller}
use software_on_silicon.Timed.Marks.{
  try_mark, put_mark, free_mark, Scheme, new_scheme, call_processor, call_control, end_control,
  with_processor, with_control,
}
use software_on_silicon.Timed.Marks.Turns.{begun, Mixed, none, one, Marked, IsTurn-ended}
use software_on_silicon.Timed.Marks.Kept.{
  processor_tries-Marked, processor_prints-Marked, processor_frees-Marked, control_tries-Marked,
  control_prints-Marked, control_frees-Marked, calls-Marked, controls-Marked,
}

-- The steps of both threads after `n` calls of the processor and `m` of the controller that came to
-- the loop, and between them whatever the client and the timer do.
pub data Alternates (signal : HandShake) : ℕ → ℕ → Scheme → Type 0 where
  begins : Alternates signal 0 0 (new_scheme signal)
  calls :
      {n m : ℕ} (s : Scheme)
      → Alternates signal n m s
      → s.processor.left ≡ 0
      → Alternates signal (suc n) m (call_processor s)
  processor_tries :
      {n m : ℕ} (s : Scheme)
      → Alternates signal n m s
      → 0 < s.processor.left
      → s.processor.past ≡ false
      → Alternates signal n m (with_processor s (try_mark s.controller s.processor))
  processor_prints :
      {n m : ℕ} (s : Scheme)
      → Alternates signal n m s
      → s.processor.past ≡ true
      → s.processor.printed ≡ false
      → Alternates signal n m (with_processor s (put_mark "*" s.controller s.processor))
  processor_frees :
      {n m : ℕ} (s : Scheme)
      → Alternates signal n m s
      → s.processor.printed ≡ true
      → Alternates signal n m (with_processor s (free_mark s.controller s.processor))
  controls :
      {n m : ℕ} (s : Scheme) (more : ℕ)
      → Alternates signal n m s
      → s.busy ≡ false
      → more ≡ m + begun (call_control s)
      → Alternates signal n more (call_control s)
  control_tries :
      {n m : ℕ} (s : Scheme)
      → Alternates signal n m s
      → 0 < s.control.left
      → s.control.past ≡ false
      → Alternates signal n m (with_control s (try_mark s.controller s.control))
  control_prints :
      {n m : ℕ} (s : Scheme)
      → Alternates signal n m s
      → s.control.past ≡ true
      → s.control.printed ≡ false
      → Alternates signal n m (with_control s (put_mark "_" s.controller s.control))
  control_frees :
      {n m : ℕ} (s : Scheme)
      → Alternates signal n m s
      → s.control.printed ≡ true
      → Alternates signal n m (with_control s (free_mark s.controller s.control))
  ends :
      {n m : ℕ} (s : Scheme)
      → Alternates signal n m s
      → s.busy ≡ true
      → s.control.left ≡ 0
      → Alternates signal n m (end_control s)
  others :
      {n m : ℕ} (s : Scheme) (g : HandShake) (w : Timer)
      → Alternates signal n m s
      → Alternates signal n m
          (record s { controller = record (s.controller) { intrinsic = g; waiter = w } })

Alternates-Marked :
    {signal : HandShake} {n m : ℕ} {s : Scheme} → Alternates signal n m s → Marked n m s
unfolding new_scheme new_controller one end_control
Alternates-Marked begins = (
  0,
  0,
  record {
    mixed = none;
    processor = record { sum = refl; inside = λ e. absurd (cc); shown = λ e. absurd (cc) };
    control = record { sum = refl; inside = λ e. absurd (cc); shown = λ e. absurd (cc) };
    held = record { apart = λ e. refl; taken = refl };
    idle = λ e. refl;
  },
)
Alternates-Marked (calls s r e) = calls-Marked s e (Alternates-Marked r)
Alternates-Marked (processor_tries s r low out) =
    processor_tries-Marked s low out (Alternates-Marked r)
Alternates-Marked (processor_prints s r inside fresh) =
    processor_prints-Marked s inside fresh (Alternates-Marked r)
Alternates-Marked (processor_frees s r shown) = processor_frees-Marked s shown (Alternates-Marked r)
Alternates-Marked (controls s more r off e) = rw e (controls-Marked s off (Alternates-Marked r))
Alternates-Marked (control_tries s r low out) = control_tries-Marked s low out (Alternates-Marked r)
Alternates-Marked (control_prints s r inside fresh) =
    control_prints-Marked s inside fresh (Alternates-Marked r)
Alternates-Marked (control_frees s r shown) = control_frees-Marked s shown (Alternates-Marked r)
Alternates-Marked (ends s r on done) =
    let (p, q, k) = Alternates-Marked r in
    (
      p,
      q,
      record {
        mixed = k.mixed;
        processor = k.processor;
        control = k.control;
        held = record { apart = k.held.apart; taken = k.held.taken };
        idle = λ e. done;
      },
    )
Alternates-Marked (others s g w r) =
    let (p, q, k) = Alternates-Marked r in
    (
      p,
      q,
      record {
        mixed = k.mixed;
        processor = k.processor;
        control = k.control;
        held = record { apart = k.held.apart; taken = k.held.taken };
        idle = k.idle;
      },
    )

-- However the tests of the flag, the marks and the clears of the two threads interleave, with
-- whatever the client and the timer do between them, the threads are never both past their test, and
-- all that is printed is stars and underscores. Where the processor has ended its loop there are
-- three stars for each of its calls, where the controller is in no call or has ended its loop there
-- are three underscores for each of its calls that came to the loop, and where both have ended
-- theirs the light is free.
pub Alternates-Mixed :
    {signal : HandShake} {n m : ℕ} {s : Scheme}
    → Alternates signal n m s
    → (s.processor.past ≡ true → s.control.past ≡ false)
      × (p : ℕ) × (q : ℕ) × Mixed p q s.controller.output
      × (s.processor.left ≡ 0 → p ≡ 3 * n)
      × (s.control.left ≡ 0 → q ≡ 3 * m)
      × (s.busy ≡ false → q ≡ 3 * m)
      × (s.processor.left ≡ 0 → s.control.left ≡ 0 → s.controller.foreign.notify ≡ cleared)
Alternates-Mixed {signal} {n} {m} {s} r =
    let (p, q, k) = Alternates-Marked r in
    let mine = IsTurn-ended p (3 * n) s.processor k.processor in
    let theirs = IsTurn-ended q (3 * m) s.control k.control in
    (
      k.held.apart,
      p,
      q,
      k.mixed,
      λ done. (mine done).0,
      λ done. (theirs done).0,
      λ off. (theirs (k.idle off)).0,
      λ done also. ground (arith, k.held.taken, (mine done).1, (theirs also).1),
    )
