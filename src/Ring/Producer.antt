-- ===== src/Ring/Producer.antt =====
-- `Functor` of test/test_ringbuffer.cpp: a host that writes a batch of values, and the ring buffer
-- that takes them out again.
use software_on_silicon.Base.{
  ℕ, zero, suc, ◌+◌, ◌-◌, ◌<◌, ◌≤◌, ◌≡◌, refl, sym, ap, ◌∙◌, arith, Bool, true, false, not, List,
  [], ◌∷◌, ◌++◌, length, length-append, append_assoc, append-nil,
}
use native.Mathlib.Decide.{dec_lt}
use software_on_silicon.Errors.{Outcome, ok, aborted, Severity, ◌>>=◌}
use software_on_silicon.Errors.Code.{ErrorCode}
use software_on_silicon.Errors.Yields.{Yields, >>=-Yields, if-Yields, ok-Yields, Yields-ok}
use software_on_silicon.Ring.{RingBus, write_interleaved, read_hook, read_loop, event_loop}
use software_on_silicon.Ring.Fifo.{IsRing, IsTold, queue, write_interleaved-queue, event_loop-queue}

-- Values written one after another.
unfoldable pub write_all : {A : Type 0} → List A → RingBus A → Outcome (RingBus A)
unfolding write_interleaved
write_all [] r = ok r
write_all (v ∷ vs) r = write_interleaved r v >>= λ t. write_all vs t

unfoldable pub copies : {A : Type 0} → ℕ → A → List A
copies zero v = []
copies (suc n) v = v ∷ copies n v

-- `Functor::operator()`: one piece less than the buffer has cells.
unfoldable pub write_pieces : {A : Type 0} → A → RingBus A → Outcome (RingBus A)
unfolding write_all copies
write_pieces piece r = write_all (copies (r.size - 1) piece) r

-- Rounds of the program: the host writes, then the loop of the ring buffer takes a step. What has
-- been handed over, in order.
unfoldable pub run_rounds : {A : Type 0} → ℕ → A → RingBus A → Outcome (List A × RingBus A)
unfolding write_pieces event_loop
run_rounds zero piece r = ok ([], r)
run_rounds (suc n) piece r = write_pieces piece r >>= λ t.
    event_loop t >>= λ a. run_rounds n piece (a.1) >>= λ b. ok (a.0 ++ b.0, b.1)

pub write_interleaved-size :
    {A : Type 0} (r t : RingBus A) (v : A) → write_interleaved r v ≡ ok t → t.size ≡ r.size
unfolding write_interleaved
write_interleaved-size r t v e = ground (arith, e)

pub event_loop-size :
    {A : Type 0} (r t : RingBus A) (xs : List A) → event_loop r ≡ ok (xs, t) → t.size ≡ r.size
unfolding event_loop read_hook
event_loop-size r t xs e =
    Yields-ok (λ a. a.1.size ≡ r.size) (event_loop r) (xs, t)
      (if-Yields _ (not r.signal.notify) _ _
        (λ _.
          >>=-Yields (λ x. Unit) _ (read_loop r.size r.size r.current r.cells r.thread_current) _
            (ok-Yields _ _ λ _ _. tt) (λ a _. Yields.yields _ refl))
        (λ _. Yields.yields _ refl))
      e

pub length-copies : {A : Type 0} (n : ℕ) (v : A) → length (copies n v) ≡ n
unfolding copies
length-copies zero v = refl
length-copies (suc n) v = ap suc (length-copies n v)

-- What `write_all` leaves behind where there is room.
pub record Written {A : Type 0} (r t : RingBus A) (vs : List A) : Type 0 where
  pub ring : IsRing t
  pub size : t.size ≡ r.size
  pub queued : queue t ≡ queue r ++ vs
  pub told : IsTold r → IsTold t

write_all-queue :
    {A : Type 0} (vs : List A) (r : RingBus A)
    → IsRing r
    → length (queue r) + length vs < r.size
    → (t : RingBus A) × (write_all vs r ≡ ok t) × Written r t vs
unfolding write_all IsTold
write_all-queue [] r w room =
    (r, refl, record { ring = w; size = refl; queued = sym (append-nil (queue r)); told = λ h. h })
write_all-queue (v ∷ vs) r w room =
    let (s, e, w', q, n) = (write_interleaved-queue r v w).0 (omega (arith, room)) in
    let size = write_interleaved-size r s v e in
    let total : length (queue s) ≡ length (queue r) + 1 =
      ap length q ∙ length-append (queue r) (v ∷ []) in
    let (t, e', x) = write_all-queue vs s w' (omega (arith, room, total, size)) in
    (
      t,
      rw e e',
      record {
        ring = x.ring;
        size = x.size ∙ size;
        queued = x.queued ∙ ap (λ (l : List _). l ++ vs) q ∙ append_assoc (queue r) (v ∷ []) vs;
        told = λ h. x.told (λ m. absurd (clash n m));
      },
    )
  where
    clash : {b : Bool} → b ≡ false → b ≡ true → ⊥
    clash e h = cc

-- A batch that is larger than the room for it is reported.
write_all_full :
    {A : Type 0} (vs : List A) (r : RingBus A)
    → IsRing r
    → r.size ≤ length (queue r) + length vs
    → length (queue r) < r.size
    → write_all vs r ≡ aborted Severity.runtime ErrorCode.ringbuffer_too_slow_or_not_big_enough
unfolding write_all
write_all_full [] r w full below = absurd (omega (arith, full, below))
write_all_full (v ∷ vs) r w full below = elim (dec_lt (length (queue r) + 1) r.size) [
  | yes room ↦
      let (s, e, w', q, n) = (write_interleaved-queue r v w).0 room in
      let size = write_interleaved-size r s v e in
      let total : length (queue s) ≡ length (queue r) + 1 =
        ap length q ∙ length-append (queue r) (v ∷ []) in
      rw e (
        write_all_full vs s w' (omega (arith, full, total, size))
          (omega (arith, room, total, size)))
  | no none_left ↦
      let e = (write_interleaved-queue r v w).1 (omega (arith, none_left, below)) in rw e refl
]

-- The pieces of the rounds.
unfoldable pub pieces : {A : Type 0} → ℕ → ℕ → A → List A
unfolding copies
pieces zero size piece = []
pieces (suc n) size piece = copies (size - 1) piece ++ pieces n size piece

write_pieces-queue :
    {A : Type 0} (piece : A) (r : RingBus A)
    → IsRing r
    → queue r ≡ []
    → (t : RingBus A) × (write_pieces piece r ≡ ok t) × Written r t (copies (r.size - 1) piece)
unfolding write_pieces
write_pieces-queue piece r w empty =
    let long = length-copies (r.size - 1) piece in
    let short = ap length empty in
    write_all-queue (copies (r.size - 1) piece) r w (omega (arith, long, short, w.wide))

run_rounds-queue :
    {A : Type 0} (n : ℕ) (piece : A) (r : RingBus A)
    → IsRing r
    → queue r ≡ []
    → (t : RingBus A) × (run_rounds n piece r ≡ ok (pieces n r.size piece, t))
      × IsRing t
      × (queue t ≡ [])
unfolding run_rounds pieces IsTold
run_rounds-queue zero piece r w empty = (r, refl, w, empty)
run_rounds-queue (suc n) piece r w empty =
    let (s, e, x) = write_pieces-queue piece r w empty in
    let batch : queue s ≡ copies (r.size - 1) piece =
      x.queued ∙ ap (λ (l : List _). l ++ copies (r.size - 1) piece) empty in
    let (t, e', w', empty') = event_loop-queue s x.ring (x.told (λ h. empty)) in
    let size : t.size ≡ r.size = event_loop-size s t (queue s) e' ∙ x.size in
    let (u, e'', w'', empty'') = run_rounds-queue n piece t w' empty' in
    (u, rw (e, e', e'', batch, size) refl, w'', empty'')

-- A host that writes a piece less than the buffer has cells, from a buffer that is empty and with a
-- step of the buffer's loop after each batch: for any number of rounds nothing is reported, and the
-- loop has handed over just the pieces of all batches. A second batch before the step of the loop
-- is reported as too fast.
pub run_rounds-pieces :
    {A : Type 0} (n : ℕ) (piece : A) (r : RingBus A)
    → IsRing r
    → queue r ≡ []
    → ((t : RingBus A) × (run_rounds n piece r ≡ ok (pieces n r.size piece, t))
        × IsRing t
        × (queue t ≡ []))
      × ((write_pieces piece r >>= λ t. write_pieces piece t)
          ≡ aborted Severity.runtime ErrorCode.ringbuffer_too_slow_or_not_big_enough)
unfolding write_pieces
run_rounds-pieces n piece r w empty =
    let (s, e, x) = write_pieces-queue piece r w empty in
    let batch : queue s ≡ copies (r.size - 1) piece =
      x.queued ∙ ap (λ (l : List _). l ++ copies (r.size - 1) piece) empty in
    let long = length-copies (r.size - 1) piece in
    let held = ap length batch in
    let again = ap (λ (k : ℕ). length (copies (k - 1) piece)) x.size in
    (
      run_rounds-queue n piece r w empty,
      rw e (
          write_all_full (copies (s.size - 1) piece) s x.ring
            (omega (arith, long, held, again, x.size, w.wide))
            (omega (arith, long, held, x.size, w.wide))),
    )
