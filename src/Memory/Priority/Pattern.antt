-- ===== src/Memory/Priority/Pattern.antt =====
-- What the writer of impl/MemoryController.cpp leaves in the memory.
use software_on_silicon.Base.{
  ℕ, zero, suc, ◌+◌, ◌%◌, ◌<◌, ◌≤◌, ◌≡◌, refl, ap, sym, ◌∙◌, update, update_self, update_ne, arith,
  true, false, Bool-cases, inl, inr, ltb, if◌then◌else◌,
}
use native.Mathlib.Decide.{ℕ_discrete as dec_eq}
use software_on_silicon.Errors.{ok, logic_error, ◌>>=◌}
use software_on_silicon.Errors.Code.{ErrorCode}
use software_on_silicon.Signals.{raised}
use software_on_silicon.Memory.{Blocker, new_blocker, write}
use software_on_silicon.Memory.Priority.{
  WritePriority, new_write_priority, advance, priority_loop, priority_rounds,
}

-- The value of cell `i`: a period of 999 cells.
abbrev pub pattern_at : {A : Type 0} → A → A → ℕ → A
pattern_at lit dark i = if ltb (i % 999) 333 then lit else dark

-- The place in the period after `n` rounds.
pub record Phase {A : Type 0} (n : ℕ) (w : WritePriority A) : Type 0 where
  pub lit_phase : w.blink ≡ true → (w.counter ≡ n % 999) × (w.counter < 333)
  pub dark_phase : w.blink ≡ false → (w.counter + 333 ≡ n % 999) × (w.counter < 666)

advance-Phase :
    {A : Type 0} (n : ℕ) (w : WritePriority A)
    → Phase n w
    → Phase (suc n) (advance w) × (advance w).blocker ≡ w.blocker
unfolding advance
advance-Phase n w p = elim (Bool-cases w.blink) [
  | inl on ↦
      let (phase, low) = p.lit_phase on in
      (record { lit_phase = λ e. ground arith; dark_phase = λ e. ground arith }, ground arith)
  | inr off ↦
      let (phase, low) = p.dark_phase off in
      (record { lit_phase = λ e. ground arith; dark_phase = λ e. ground arith }, ground arith)
]

-- The value that round `n` writes.
round_value :
    {A : Type 0} (lit dark : A) (n : ℕ) (w : WritePriority A)
    → Phase n w
    → (if w.blink then lit else dark) ≡ pattern_at lit dark n
round_value lit dark n w p = elim (Bool-cases w.blink) [
  | inl on ↦ let (phase, low) = p.lit_phase on in ground (arith, on)
  | inr off ↦ let (phase, low) = p.dark_phase off in ground (arith, off)
]

-- After `n` rounds over a memory of `size` cells.
pub record IsPattern {A : Type 0} (lit dark : A) (size n : ℕ) (w : WritePriority A) : Type 0 where
  pub same_size : w.blocker.size ≡ size
  pub start : w.blocker.bk_start ≡ n
  pub end : w.blocker.bk_end ≡ n
  pub phase : Phase n w
  pub content : (i : ℕ) → i < n → w.blocker.cells i ≡ pattern_at lit dark i

written : {A : Type 0} → A → A → WritePriority A → Blocker A
written lit dark w = record (w.blocker) {
  bk_end = w.blocker.bk_end + 1;
  cells = update w.blocker.cells w.blocker.bk_start (if w.blink then lit else dark);
  bk_start = w.blocker.bk_start + 1;
  writing = raised;
}

written-IsPattern :
    {A : Type 0} (lit dark : A) (size n : ℕ) (w : WritePriority A)
    → IsPattern lit dark size n w
    → (i : ℕ) → i < suc n
    → (written lit dark w).cells i ≡ pattern_at lit dark i
unfolding written
written-IsPattern lit dark size n w p i low =
    let value = round_value lit dark n w p.phase in
    elim (dec_eq n i) [
      | yes last ↦ rw (p.start, sym last) (update_self w.blocker.cells n _ ∙ value)
      | no before ↦ rw p.start (update_ne w.blocker.cells n i _ before ∙ p.content i (omega arith))
    ]

priority_loop-IsPattern :
    {A : Type 0} (lit dark : A) (size n : ℕ) (w : WritePriority A)
    → IsPattern lit dark size n w
    → (n < size
        → (t : WritePriority A) × (priority_loop lit dark w ≡ ok t)
          × IsPattern lit dark size (suc n) t)
      × (n ≡ size → priority_loop lit dark w ≡ logic_error ErrorCode.writer_buffer_full)
unfolding priority_loop write written
priority_loop-IsPattern lit dark size n w p =
    let u = record w { blocker = written lit dark w } in
    let (phase, kept) =
      advance-Phase n u
        (record { lit_phase = p.phase.lit_phase; dark_phase = p.phase.dark_phase }) in
    (
      λ room. (
        advance u,
        ground (arith, p.same_size, p.start),
        record {
          same_size = ap (λ b. b.size) kept ∙ p.same_size;
          start = ap (λ b. b.bk_start) kept ∙ omega (arith, p.start);
          end = ap (λ b. b.bk_end) kept ∙ omega (arith, p.end);
          phase = phase;
          content = λ i low. ap (λ b. b.cells i) kept ∙ written-IsPattern lit dark size n w p i low;
        },
      ),
      λ full. ground (arith, p.same_size, p.start),
    )

rounds-IsPattern :
    {A : Type 0} (lit dark blank : A) (size n : ℕ)
    → n ≤ size
    → (t : WritePriority A) × (priority_rounds lit dark n (new_write_priority size blank) ≡ ok t)
      × IsPattern lit dark size n t
unfolding priority_rounds new_write_priority new_blocker
rounds-IsPattern lit dark blank size zero le = (
  new_write_priority size blank,
  refl,
  record {
    same_size = refl;
    start = refl;
    end = refl;
    phase = record { lit_phase = λ e. (omega arith, omega arith); dark_phase = λ e. cc };
    content = λ i low. absurd (omega arith);
  },
)
rounds-IsPattern lit dark blank size (suc n) le =
    let (w, e, p) = rounds-IsPattern lit dark blank size n (omega arith) in
    let (t, f, q) = (priority_loop-IsPattern lit dark size n w p).0 (omega arith) in
    (t, ap (λ m. m >>= priority_loop lit dark) e ∙ f, q)

-- The first `n` rounds over a memory with room for them return, and leave the counter below 666 and
-- the cells before `n` with a period of 999 cells, the first 333 of them lit and the rest dark. One
-- round more than the memory has cells reports that the writer's buffer is full.
pub priority_rounds-pattern_at :
    {A : Type 0} (lit dark blank : A) (size n : ℕ)
    → (n ≤ size
        → (t : WritePriority A) × (priority_rounds lit dark n (new_write_priority size blank)
            ≡ ok t)
          × (t.counter < 666)
          × ((i : ℕ) → i < n → t.blocker.cells i ≡ pattern_at lit dark i))
      × (n ≡ suc size
          → priority_rounds lit dark n (new_write_priority size blank)
            ≡ logic_error ErrorCode.writer_buffer_full)
unfolding priority_rounds
priority_rounds-pattern_at lit dark blank size n = (
  λ room.
      let (t, e, p) = rounds-IsPattern lit dark blank size n room in
      (t, e, counter_bound n t p.phase, p.content),
  λ full.
      let (w, e, p) = rounds-IsPattern lit dark blank size size (omega arith) in
      rw full (
        ap (λ m. m >>= priority_loop lit dark) e
        ∙ (priority_loop-IsPattern lit dark size size w p).1 refl),
)
  where
    counter_bound : {A : Type 0} (n : ℕ) (t : WritePriority A) → Phase n t → t.counter < 666
    counter_bound n t p = elim (Bool-cases t.blink) [
      | inl on ↦ let (phase, low) = p.lit_phase on in omega arith
      | inr off ↦ (p.dark_phase off).1
    ]
