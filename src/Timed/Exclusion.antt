-- ===== src/Timed/Exclusion.antt =====
-- A flag as a lock, the way impl/Controller.cpp and the descriptors of a resolver's bus use it: any
-- number of threads, each of which waits until `test_and_set` finds the flag clear, does its work,
-- and clears the flag.
use Prim.Native.Char.{Char}
use software_on_silicon.Base.{
  ℕ, ◌≡◌, ◌≢◌, refl, sym, ◌∙◌, ◌⊎◌, arith, Bool-cases, inl, inr, if◌then◌else◌, update, update_self,
  update_ne, List, ◌∷◌,
}
use native.Mathlib.Decide.{ℕ_discrete as dec_eq}
use software_on_silicon.Signals.{Flag, test_and_set, cleared, raised}

-- A thread is outside, holds the flag, or has printed its mark.
pub data Place : Type 0 where
  outside : Place
  holding : Place
  printed : Place

pub record Shared : Type 0 where
  pub notify : Flag
  pub places : ℕ → Place
  pub output : List Char

-- One test of the loop `while (test_and_set())` of thread `i`.
unfoldable pub try_turn : ℕ → Shared → Shared
try_turn i s =
    let (taken, f) = test_and_set s.notify in
    record s {
      notify = f;
      places = update s.places i (if taken then Place.outside else Place.holding);
    }

unfoldable pub print_turn : ℕ → Char → Shared → Shared
print_turn i mark s = record s {
  places = update s.places i Place.printed;
  output = mark ∷ s.output;
}

unfoldable pub free_turn : ℕ → Shared → Shared
free_turn i s = record s { notify = cleared; places = update s.places i Place.outside }

-- From a flag that is clear and threads that are all outside.
pub data Turns : Shared → Type 0 where
  begins :
      (output : List Char)
      → Turns (record { notify = cleared; places = λ i. Place.outside; output = output })
  tries : {s : Shared} (i : ℕ) → s.places i ≡ Place.outside → Turns s → Turns (try_turn i s)
  prints :
      {s : Shared} (i : ℕ) (mark : Char)
      → s.places i ≡ Place.holding
      → Turns s
      → Turns (print_turn i mark s)
  frees : {s : Shared} (i : ℕ) → s.places i ≡ Place.printed → Turns s → Turns (free_turn i s)

record IsExclusive (s : Shared) : Type 0 where
  free : s.notify ≡ cleared → (i : ℕ) → s.places i ≡ Place.outside
  single : (i j : ℕ) → i ≢ j → s.places i ≢ Place.outside → s.places j ≡ Place.outside
  held : s.notify ≡ raised → (i : ℕ) × (s.places i ≢ Place.outside)

distinct : (Place.holding ≢ Place.outside) × (Place.printed ≢ Place.outside) × (raised ≢ cleared)
distinct = (λ e. cc, λ e. cc, λ e. cc)

-- A thread that an update of another passes over.
other_place :
    (s : Shared) (i j : ℕ) (p : Place)
    → i ≢ j
    → s.places j ≢ Place.outside
    → update s.places i p j ≢ Place.outside
other_place s i j p ne a q = a (sym (update_ne s.places i j p ne) ∙ q)

own_place :
    (s : Shared) (i : ℕ) (p : Place) → p ≢ Place.outside → update s.places i p i ≢ Place.outside
own_place s i p a q = a (sym (update_self s.places i p) ∙ q)

try_turn-IsExclusive :
    (s : Shared) (i : ℕ) → s.places i ≡ Place.outside → IsExclusive s → IsExclusive (try_turn i s)
unfolding try_turn
try_turn-IsExclusive s i e k = elim (Bool-cases s.notify) [
  | inl taken ↦ record {
    free = λ c. absurd (distinct.2 c);
    single = λ j l ne a. ground (arith, k.single j l ne, e, taken);
    held =
        λ q. let (j, a) = k.held taken in (j, other_place s i j _ (λ same. a (rw (sym same) e)) a);
  }
  | inr clear ↦ record {
    free = λ c. absurd (distinct.2 c);
    single = λ j l ne a. ground (arith, k.free clear l, k.free clear j);
    held = λ q. (i, rw clear (own_place s i Place.holding distinct.0));
  }
]

print_turn-IsExclusive :
    (s : Shared) (i : ℕ) (mark : Char)
    → s.places i ≡ Place.holding
    → IsExclusive s
    → IsExclusive (print_turn i mark s)
unfolding print_turn
print_turn-IsExclusive s i mark e k = record {
  free = λ c j. absurd (distinct.0 (sym e ∙ k.free c i));
  single = λ j l ne a. elim (dec_eq i l) [
    | yes same ↦ absurd (
        inside (
          k.single j i (λ q. ne (q ∙ same))
            (λ q. a (update_ne s.places i j _ (λ r. ne (sym r ∙ same)) ∙ q))))
    | no other ↦ update_ne s.places i l _ other ∙ elim (dec_eq i j) [
      | yes own ↦ k.single i l other inside
      | no far ↦ k.single j l ne (λ q. a (update_ne s.places i j _ far ∙ q))
    ]
  ];
  held = λ q. (i, own_place s i Place.printed distinct.1);
}
  where
    inside : s.places i ≢ Place.outside
    inside q = distinct.0 (sym e ∙ q)

free_turn-IsExclusive :
    (s : Shared) (i : ℕ) → s.places i ≡ Place.printed → IsExclusive s → IsExclusive (free_turn i s)
unfolding free_turn
free_turn-IsExclusive s i e k = record {
  free = λ c j. others j;
  single = λ j l ne a. others l;
  held = λ q. absurd (distinct.2 (sym q));
}
  where
    others : (j : ℕ) → update s.places i Place.outside j ≡ Place.outside
    others j = elim (dec_eq i j) [
      | yes same ↦ ground (arith, same)
      | no other ↦ ground (arith, k.single i j other (λ q. distinct.1 (sym e ∙ q)))
    ]

-- However the threads interleave, no two of them are past their test of the flag at once, and they
-- do not block each other for good: the flag is clear, so that the next test succeeds, or there is
-- a thread past its test, which has a step to take.
pub Turns-IsExclusive :
    {s : Shared}
    → Turns s
    → ((i j : ℕ) → i ≢ j → s.places i ≢ Place.outside → s.places j ≡ Place.outside)
      × ((s.notify ≡ cleared) ⊎ ((i : ℕ) × (s.places i ≢ Place.outside)))
Turns-IsExclusive {s} r = let k = inv r in (k.single, progress s k (Bool-cases s.notify))
  where
    inv : {s : Shared} → Turns s → IsExclusive s
    inv (begins output) = record {
      free = λ c i. refl;
      single = λ i j ne a. refl;
      held = λ q. absurd (distinct.2 (sym q));
    }
    inv (tries {s} i e r) = try_turn-IsExclusive s i e (inv r)
    inv (prints {s} i mark e r) = print_turn-IsExclusive s i mark e (inv r)
    inv (frees {s} i e r) = free_turn-IsExclusive s i e (inv r)

    progress :
        (s : Shared)
        → IsExclusive s
        → (s.notify ≡ raised) ⊎ (s.notify ≡ cleared)
        → (s.notify ≡ cleared) ⊎ ((i : ℕ) × (s.places i ≢ Place.outside))
    progress s k (inl up) = inr (k.held up)
    progress s k (inr clear) = inl clear
