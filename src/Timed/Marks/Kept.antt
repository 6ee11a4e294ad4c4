-- ===== src/Timed/Marks/Kept.antt =====
-- The steps of the two threads at the light of impl/Controller.cpp.
use software_on_silicon.Base.{ℕ, suc, ◌+◌, ◌*◌, ◌<◌, ◌≡◌, arith, true, false}
use software_on_silicon.Timed.Marks.{
  try_mark, put_mark, free_mark, Scheme, call_processor, call_control, with_processor, with_control,
}
use software_on_silicon.Timed.Marks.Turns.{
  begun, star, underscore, one, Marked, try_mark-IsTurn, put_mark-IsTurn, free_mark-IsTurn,
}

pub calls-Marked :
    {n m : ℕ} (s : Scheme)
    → s.processor.left ≡ 0
    → Marked n m s
    → Marked (suc n) m (call_processor s)
unfolding call_processor one
calls-Marked {n} {m} s done (p, q, k) = (
  p,
  q,
  record {
    mixed = k.mixed;
    processor = record {
      sum = omega (arith, k.processor.sum, done);
      inside = λ e. omega arith;
      shown = k.processor.shown;
    };
    control = k.control;
    held = record { apart = k.held.apart; taken = k.held.taken };
    idle = k.idle;
  },
)

pub controls-Marked :
    {n m : ℕ} (s : Scheme)
    → s.busy ≡ false
    → Marked n m s
    → Marked n (m + begun (call_control s)) (call_control s)
unfolding call_control begun one
controls-Marked {n} {m} s off (p, q, k) = (
  p,
  q,
  record {
    mixed = ground (arith, k.mixed);
    processor = ground (arith, k.processor);
    control = record {
      sum = ground (arith, k.control.sum, k.idle off);
      inside = λ e. ground (arith, k.control.inside, k.idle off);
      shown = λ e. ground (arith, k.control.shown);
    };
    held = record { apart = ground (arith, k.held.apart); taken = ground (arith, k.held.taken) };
    idle = ground (arith, k.idle off, off);
  },
)

pub processor_tries-Marked :
    {n m : ℕ} (s : Scheme)
    → 0 < s.processor.left
    → s.processor.past ≡ false
    → Marked n m s
    → Marked n m (with_processor s (try_mark s.controller s.processor))
unfolding try_mark
processor_tries-Marked {n} {m} s low out (p, q, k) = (
  p,
  q,
  record {
    mixed = k.mixed;
    processor = try_mark-IsTurn p (3 * n) s.controller s.processor k.processor low out;
    control = k.control;
    held = record {
      apart = λ e. ground (arith, k.held.taken, k.held.apart, out, e);
      taken = ground (arith, k.held.taken, out);
    };
    idle = k.idle;
  },
)

pub processor_prints-Marked :
    {n m : ℕ} (s : Scheme)
    → s.processor.past ≡ true
    → s.processor.printed ≡ false
    → Marked n m s
    → Marked n m (with_processor s (put_mark "*" s.controller s.processor))
unfolding put_mark
processor_prints-Marked {n} {m} s inside fresh (p, q, k) = (
  suc p,
  q,
  record {
    mixed = star k.mixed;
    processor = put_mark-IsTurn p (3 * n) s.controller s.processor k.processor "*" inside fresh;
    control = k.control;
    held = record { apart = k.held.apart; taken = k.held.taken };
    idle = k.idle;
  },
)

pub processor_frees-Marked :
    {n m : ℕ} (s : Scheme)
    → s.processor.printed ≡ true
    → Marked n m s
    → Marked n m (with_processor s (free_mark s.controller s.processor))
unfolding free_mark
processor_frees-Marked {n} {m} s shown (p, q, k) = (
  p,
  q,
  record {
    mixed = k.mixed;
    processor = free_mark-IsTurn p (3 * n) s.controller s.processor k.processor shown;
    control = k.control;
    held = record {
      apart = λ e. ground (arith, e);
      taken = ground (arith, k.held.taken, k.held.apart, k.processor.shown shown);
    };
    idle = k.idle;
  },
)

pub control_tries-Marked :
    {n m : ℕ} (s : Scheme)
    → 0 < s.control.left
    → s.control.past ≡ false
    → Marked n m s
    → Marked n m (with_control s (try_mark s.controller s.control))
unfolding try_mark
control_tries-Marked {n} {m} s low out (p, q, k) = (
  p,
  q,
  record {
    mixed = k.mixed;
    control = try_mark-IsTurn q (3 * m) s.controller s.control k.control low out;
    processor = k.processor;
    held = record {
      apart = λ e. ground (arith, k.held.taken, k.held.apart, out, e);
      taken = ground (arith, k.held.taken, out);
    };
    idle = λ e. ground (arith, k.idle e);
  },
)

pub control_prints-Marked :
    {n m : ℕ} (s : Scheme)
    → s.control.past ≡ true
    → s.control.printed ≡ false
    → Marked n m s
    → Marked n m (with_control s (put_mark "_" s.controller s.control))
unfolding put_mark
control_prints-Marked {n} {m} s inside fresh (p, q, k) = (
  p,
  suc q,
  record {
    mixed = underscore k.mixed;
    control = put_mark-IsTurn q (3 * m) s.controller s.control k.control "_" inside fresh;
    processor = k.processor;
    held = record { apart = k.held.apart; taken = k.held.taken };
    idle = k.idle;
  },
)

pub control_frees-Marked :
    {n m : ℕ} (s : Scheme)
    → s.control.printed ≡ true
    → Marked n m s
    → Marked n m (with_control s (free_mark s.controller s.control))
unfolding free_mark
control_frees-Marked {n} {m} s shown (p, q, k) = (
  p,
  q,
  record {
    mixed = k.mixed;
    control = free_mark-IsTurn q (3 * m) s.controller s.control k.control shown;
    processor = k.processor;
    held = record {
      apart = λ e. ground (arith, e);
      taken = ground (arith, k.held.taken, k.held.apart, k.control.shown shown);
    };
    idle = λ e. ground (arith, k.idle e);
  },
)
