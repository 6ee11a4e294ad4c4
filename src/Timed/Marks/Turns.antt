-- ===== src/Timed/Marks/Turns.antt =====
-- The turns of one thread at the light of impl/Controller.cpp, and what the two threads keep.
use Prim.Native.Char.{Char}
use software_on_silicon.Base.{
  ℕ, zero, suc, ◌+◌, ◌*◌, ◌<◌, ◌≡◌, arith, Bool, true, false, if◌then◌else◌, List, [], ◌∷◌, ◌||◌,
  ◌==◌,
}
use software_on_silicon.Timed.{Controller}
use software_on_silicon.Timed.Marks.{Turn, try_mark, put_mark, free_mark, Scheme}

-- The loops of three turns that a call of the controller begins.
unfoldable pub begun : Scheme → ℕ
begun s = if s.control.left == 0 then 0 else 1

-- `p` stars and `q` underscores in any order.
pub data Mixed : ℕ → ℕ → List Char → Type 0 where
  none : Mixed zero zero []
  star : {p q : ℕ} {l : List Char} → Mixed p q l → Mixed (suc p) q ("*" ∷ l)
  underscore : {p q : ℕ} {l : List Char} → Mixed p q l → Mixed p (suc q) ("_" ∷ l)

unfoldable pub one : Bool → ℕ
one b = if b then 1 else 0

-- The turns of one thread, `total` of them begun and `count` printed.
pub record IsTurn (count total : ℕ) (t : Turn) : Type 0 where
  pub sum : count + t.left ≡ total + one t.printed
  pub inside : t.past ≡ true → 0 < t.left
  pub shown : t.printed ≡ true → t.past ≡ true

-- The light is taken just when one of the threads is past its test, and then only one is.
pub record IsHeld (s : Scheme) : Type 0 where
  pub apart : s.processor.past ≡ true → s.control.past ≡ false
  pub taken : s.controller.foreign.notify ≡ (s.processor.past || s.control.past)

pub record IsMarked (n m p q : ℕ) (s : Scheme) : Type 0 where
  pub mixed : Mixed p q s.controller.output
  pub processor : IsTurn p (3 * n) s.processor
  pub control : IsTurn q (3 * m) s.control
  pub held : IsHeld s
  pub idle : s.busy ≡ false → s.control.left ≡ 0

abbrev pub Marked : ℕ → ℕ → Scheme → Type 0
Marked n m s = (p : ℕ) × (q : ℕ) × IsMarked n m p q s

-- One turn of one thread, at a light that the other does or does not hold.
module _ (count total : ℕ) (c : Controller) (t : Turn) (k : IsTurn count total t) where
  pub try_mark-IsTurn : 0 < t.left → t.past ≡ false → IsTurn count total (try_mark c t).1
  unfolding try_mark
  try_mark-IsTurn low out = record {
    sum = k.sum;
    inside = λ e. low;
    shown = λ e. ground (arith, k.shown e, out);
  }

  pub put_mark-IsTurn :
      (mark : Char)
      → t.past ≡ true
      → t.printed ≡ false
      → IsTurn (suc count) total (put_mark mark c t).1
  unfolding put_mark one
  put_mark-IsTurn mark inside fresh = record {
    sum = ground (arith, k.sum, fresh);
    inside = k.inside;
    shown = λ e. inside;
  }

  pub free_mark-IsTurn : t.printed ≡ true → IsTurn count total (free_mark c t).1
  unfolding free_mark one
  free_mark-IsTurn shown = record {
    sum = ground (arith, k.sum, shown, k.inside (k.shown shown));
    inside = λ e. absurd (cc);
    shown = λ e. absurd (cc);
  }

-- A turn at its end is not past its test.
pub IsTurn-ended :
    (count total : ℕ) (t : Turn)
    → IsTurn count total t
    → t.left ≡ 0
    → (count ≡ total) × (t.past ≡ false)
unfolding one
IsTurn-ended count total t k done =
    (ground (arith, k.sum, k.inside, k.shown, done), ground (arith, k.inside, done))
