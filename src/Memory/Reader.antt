-- ===== src/Memory/Reader.antt =====
-- What a reader copies while a writer writes.
use software_on_silicon.Base.{
  ℕ, suc, ◌+◌, ◌-◌, ◌<◌, ◌≤◌, ◌≡◌, ◌≢◌, refl, ap, ◌∙◌, arith, true, false, Bool-cases, inl, inr,
  ◌⊎◌, if◌then◌else◌, Array, List, [], ◌∷◌,
}
use native.Mathlib.Decide.{dec_lt, ℕ_discrete as dec_eq}
use software_on_silicon.Errors.{ok, aborted, Severity}
use software_on_silicon.Errors.Code.{ErrorCode}
use software_on_silicon.Memory.{Blocker, Reading, read_round, read_rounds, read}

-- A cell of the memory that lies outside the range a blocker reports as busy.
abbrev pub IsFree : {A : Type 0} → Blocker A → ℕ → Type 0
IsFree b a = (a < b.bk_start) ⊎ (b.bk_end < a)

-- Where a copied value comes from: it is the mark, from a round that found the cell `a` in the busy
-- range, or it is the cell as a round found it outside that range; in neither round a write was in
-- progress.
pub data Source {A : Type 0} (mark : A) (a : ℕ) (v : A) : List (Blocker A) → Type 0 where
  marked :
      (b : Blocker A) (bs : List (Blocker A))
      → b.writing ≡ true
      → b.bk_start ≤ a
      → a ≤ b.bk_end
      → v ≡ mark
      → Source mark a v (b ∷ bs)
  copied :
      (b : Blocker A) (bs : List (Blocker A))
      → b.writing ≡ true
      → IsFree b a
      → v ≡ b.cells a
      → Source mark a v (b ∷ bs)
  later : (b : Blocker A) (bs : List (Blocker A)) → Source mark a v bs → Source mark a v (b ∷ bs)

-- The rounds that find no write in progress.
unfoldable pub turns : {A : Type 0} → List (Blocker A) → ℕ
turns [] = 0
turns (b ∷ bs) = if b.writing then suc (turns bs) else turns bs

round_waits :
    {A : Type 0} (mark : A) (b : Blocker A) (s : Reading A)
    → b.writing ≡ false
    → read_round mark b s ≡ s
unfolding read_round
round_waits mark b s h = ground arith

round_reads :
    {A : Type 0} (mark : A) (b : Blocker A) (s : Reading A)
    → b.writing ≡ true
    → ((read_round mark b s).rb ≡ s.rb - 1)
      × ((read_round mark b s).mc ≡ s.mc - 1)
      × ((i : ℕ) → i ≢ s.rb - 1 → (read_round mark b s).out i ≡ s.out i)
      × (IsFree b (s.mc - 1) → (read_round mark b s).out (s.rb - 1) ≡ b.cells (s.mc - 1))
      × (b.bk_start ≤ s.mc - 1 → s.mc - 1 ≤ b.bk_end → (read_round mark b s).out (s.rb - 1) ≡ mark)
unfolding read_round
round_reads mark b s h = (
  ground arith,
  ground arith,
  λ i ne. ground (arith, ne),
  λ free. ground (arith, free),
  λ low high. ground arith,
)

rounds_done :
    {A : Type 0} (mark : A) (bs : List (Blocker A)) (s : Reading A)
    → s.rb ≡ 0
    → read_rounds mark bs s ≡ s
unfolding read_rounds
rounds_done mark [] s e = refl
rounds_done mark (b ∷ bs) s e = ground (arith, e)

rounds_step :
    {A : Type 0} (mark : A) (b : Blocker A) (bs : List (Blocker A)) (s : Reading A)
    → s.rb ≢ 0
    → read_rounds mark (b ∷ bs) s ≡ read_rounds mark bs (read_round mark b s)
unfolding read_rounds
rounds_step mark b bs s ne = ground (arith, ne)

-- Where the value of a round comes from.
read_round-Source :
    {A : Type 0} (mark : A) (b : Blocker A) (bs : List (Blocker A)) (s : Reading A) (a : ℕ) (v : A)
    → b.writing ≡ true
    → s.mc - 1 ≡ a
    → v ≡ (read_round mark b s).out (s.rb - 1)
    → Source mark a v (b ∷ bs)
read_round-Source mark b bs s a v open_turn at e =
    let (rb, mc, others, free, busy) = round_reads mark b s open_turn in
    elim (dec_lt (s.mc - 1) b.bk_start) [
      | yes low ↦
          Source.copied b bs open_turn (inl (omega arith)) (e ∙ free (inl low) ∙ ap b.cells at)
      | no above ↦ elim (dec_lt b.bk_end (s.mc - 1)) [
        | yes high ↦
            Source.copied b bs open_turn (inr (omega arith)) (e ∙ free (inr high) ∙ ap b.cells at)
        | no inside ↦
            Source.marked b bs open_turn (omega arith) (omega arith)
              (e ∙ busy (omega arith) (omega arith))
      ]
    ]

-- What the rounds come to from any point of the loop on.
rounds_lem :
    {A : Type 0} (mark : A) (offset : ℕ) (bs : List (Blocker A)) (s : Reading A)
    → s.mc ≡ offset + s.rb
    → let t = read_rounds mark bs s in
      (t.rb ≡ s.rb - turns bs)
      × ((i : ℕ) → i < t.rb → t.out i ≡ s.out i)
      × ((i : ℕ) → s.rb ≤ i → t.out i ≡ s.out i)
      × ((i : ℕ) → t.rb ≤ i → i < s.rb → Source mark (offset + i) (t.out i) bs)
unfolding read_rounds turns
rounds_lem mark offset [] s e =
    (omega arith, λ i lt. refl, λ i le. refl, λ i le lt. absurd (omega arith))
rounds_lem mark offset (b ∷ bs) s e = elim (dec_eq s.rb 0) [
  | yes done ↦
      rw (rounds_done mark (b ∷ bs) s done)
        (omega arith, λ i lt. refl, λ i le. refl, λ i le lt. absurd (omega arith))
  | no more ↦ elim (Bool-cases b.writing) [
    | inl open_turn ↦
        let u = read_round mark b s in
        let (rb, mc, others, free, busy) = round_reads mark b s open_turn in
        let (left, below, above, source) = rounds_lem mark offset bs u (omega arith) in
        rw (rounds_step mark b bs s more) (
          ground (arith, left, open_turn, rb),
          λ i lt. below i lt ∙ others i (omega arith),
          λ i le. above i (omega arith) ∙ others i (omega arith),
          λ i le lt. elim (dec_lt i u.rb) [
            | yes lower ↦ Source.later b bs (source i le lower)
            | no last ↦
                let here : i ≡ s.rb - 1 = omega arith in
                read_round-Source mark b bs s (offset + i) _ open_turn (omega arith)
                  (above i (omega arith) ∙ ap u.out here)
          ],
        )
    | inr held ↦
        let (left, below, above, source) = rounds_lem mark offset bs s e in
        rw (rounds_step mark b bs s more, round_waits mark b s held)
          (ground (arith, left, held), below, above, λ i le lt. Source.later b bs (source i le lt))
  ]
]

-- Copying a block while a writer writes. A read past the end of the memory is reported. Any other
-- read goes on for as long as the rounds do: when the rounds with no write in progress are at least
-- as many as the buffer has cells, every cell has been copied, and each holds the value that the
-- memory had at its place in one of the rounds, when no write was in progress and outside the range
-- in which the writer was at work, or the mark, from a round in which its place was in that range.
pub read-Source :
    {A : Type 0} (mark : A) (mc_size rb_length offset : ℕ) (out : Array A)
    (rounds : List (Blocker A))
    → (mc_size < offset + rb_length
        → read mark mc_size rb_length offset out rounds
          ≡ aborted Severity.runtime ErrorCode.readindex_out_of_bounds)
      × (offset + rb_length ≤ mc_size
          → (t : Reading A) × (read mark mc_size rb_length offset out rounds ≡ ok t)
            × (t.rb ≡ rb_length - turns rounds)
            × ((i : ℕ) → t.rb ≤ i → i < rb_length → Source mark (offset + i) (t.out i) rounds)
            × ((i : ℕ) → rb_length ≤ i → t.out i ≡ out i))
unfolding read
read-Source mark mc_size rb_length offset out rounds =
    let s : Reading _ = record {
      out = out;
      rb = rb_length;
      mc = offset + rb_length;
      reading = true;
    } in
    let (left, below, above, source) = rounds_lem mark offset rounds s refl in
    (λ far. ground arith, λ near. (read_rounds mark rounds s, ground arith, left, source, above))
