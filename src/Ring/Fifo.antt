-- ===== src/Ring/Fifo.antt =====
-- The ring buffer is a bounded queue.
use software_on_silicon.Base.{
  ℕ, suc, ◌+◌, ◌-◌, ◌<◌, ◌≤◌, ◌≡◌, ◌≢◌, refl, ap, ◌∙◌, arith, true, false, ltb, Bool-cases, inl,
  inr, if◌then◌else◌, Array, update, List, [], ◌∷◌, ◌++◌, length,
}
use software_on_silicon.Errors.{ok, aborted, Severity}
use software_on_silicon.Errors.Code.{ErrorCode}
use software_on_silicon.Signals.{Notify}
use software_on_silicon.Ring.{
  RingBus, new_ring_bus, next_index, write_interleaved, read_hook, event_loop,
}
use software_on_silicon.Ring.Gather.{
  gather, onward, next_index-lt, gather_snoc, read_loop_lem, length-gather,
}

-- How many values the writer is ahead.
unfoldable pub pending {ℓ} : {A : Type ℓ} → RingBus A → ℕ
pending r =
    if ltb r.thread_current r.current
    then r.current - r.thread_current - 1
    else r.current + r.size - r.thread_current - 1

-- The queue that a bus stands for: what has been written and not read, oldest first.
unfoldable pub queue {ℓ} : {A : Type ℓ} → RingBus A → List A
unfolding gather pending
queue r = gather (pending r) r.size r.cells (next_index r.size r.thread_current)

pub record IsRing {ℓ} {A : Type ℓ} (r : RingBus A) : Type ℓ where
  pub wide : 2 ≤ r.size
  pub current_in : r.current < r.size
  pub thread_in : r.thread_current < r.size

length-queue {ℓ} : {A : Type ℓ} (r : RingBus A) → length (queue r) ≡ pending r
unfolding queue
length-queue r = length-gather (pending r) r.size (next_index r.size r.thread_current) r.cells

-- The constructor refuses a buffer of fewer than two cells, and makes an empty queue over any
-- other.
pub new_ring_bus-IsRing {ℓ} :
    {A : Type ℓ} (size : ℕ) (cells : Array A)
    → (size < 2
        → new_ring_bus size cells
          ≡ aborted Severity.logic ErrorCode.requested_ringbuffer_size_not_big_enough)
      × (2 ≤ size → (r : RingBus A) × (new_ring_bus size cells ≡ ok r) × IsRing r × (queue r ≡ []))
unfolding new_ring_bus queue
new_ring_bus-IsRing size cells = (
  λ small. ground arith,
  λ wide. (
    record {
      size = size;
      cells = cells;
      current = 1;
      thread_current = 0;
      signal = record { notify = true };
    },
    ground (arith, wide),
    record { wide = wide; current_in = omega arith; thread_in = omega arith },
    refl,
  ),
)

pending_room {ℓ} :
    {A : Type ℓ} (r : RingBus A)
    → IsRing r
    → (pending r < r.size)
      × (onward r.size (next_index r.size r.thread_current) (pending r) ≡ r.current)
unfolding pending next_index
pending_room r v = (
  ground (arith, v.wide, v.current_in, v.thread_in),
  ground (arith, v.wide, v.current_in, v.thread_in),
)

pending_full {ℓ} :
    {A : Type ℓ} (r : RingBus A) → IsRing r → pending r + 1 < r.size → r.current ≢ r.thread_current
unfolding pending
pending_full r v room = λ h. ground (arith, v.wide, v.current_in, v.thread_in)

full_lem {ℓ} :
    {A : Type ℓ} (r : RingBus A) → IsRing r → pending r + 1 ≡ r.size → r.current ≡ r.thread_current
unfolding pending
full_lem r v e = ground (arith, v.wide, v.current_in, v.thread_in)

pending_empty {ℓ} :
    {A : Type ℓ} (r : RingBus A) (t : ℕ)
    → IsRing r
    → t < r.size
    → next_index r.size t ≡ r.current
    → pending (record r { thread_current = t }) ≡ 0
unfolding pending next_index
pending_empty r t v lt e = ground (arith, v.wide, v.current_in, v.thread_in)

pending_next {ℓ} :
    {A : Type ℓ} (r : RingBus A) (cells : Array A) (g : Notify)
    → IsRing r
    → r.current ≢ r.thread_current
    → pending (record r { cells = cells; current = next_index r.size r.current; signal = g })
      ≡ suc (pending r)
unfolding pending next_index
pending_next r cells g v ne = ground (arith, v.wide, v.current_in, v.thread_in)

-- Writing is putting a value at the end of a queue that holds one value less than the buffer has
-- cells: with room for another, `WriteInterleaved` appends the value and tells the reader, and on
-- a full queue it reports that the buffer is too slow or too small.
pub write_interleaved-queue {ℓ} :
    {A : Type ℓ} (r : RingBus A) (v : A)
    → IsRing r
    → (length (queue r) + 1 < r.size
        → (r' : RingBus A) × (write_interleaved r v ≡ ok r')
          × IsRing r'
          × (queue r' ≡ queue r ++ (v ∷ []))
          × (r'.signal.notify ≡ false))
      × (length (queue r) + 1 ≡ r.size
          → write_interleaved r v
            ≡ aborted Severity.runtime ErrorCode.ringbuffer_too_slow_or_not_big_enough)
unfolding write_interleaved queue
write_interleaved-queue r v w =
    let (small, at_end) = pending_room r w in
    let counted = length-queue r in
    (
      λ room.
          let ne = pending_full r w (rw counted at room) in
          (
            record r {
              cells = update r.cells r.current v;
              current = next_index r.size r.current;
              signal = record { notify = false };
            },
            ground (arith, ne),
            record {
              wide = w.wide;
              current_in = next_index-lt r.size r.current w.current_in;
              thread_in = w.thread_in;
            },
            rw (pending_next r (update r.cells r.current v) (record { notify = false }) w ne) (
                gather_snoc (pending r) r.size (next_index r.size r.thread_current) r.cells v
                  r.current (next_index-lt r.size r.thread_current w.thread_in) small at_end),
            refl,
          ),
      λ full. ground (arith, full_lem r w (rw counted at full)),
    )

-- Reading empties the queue: on a sound bus the reader's loop ends, hands over the values in the
-- order in which they were written, each of them once, and leaves an empty queue.
pub read_hook-queue {ℓ} :
    {A : Type ℓ} (r : RingBus A)
    → IsRing r
    → (r' : RingBus A) × (read_hook r ≡ ok (queue r, r')) × IsRing r' × (queue r' ≡ [])
unfolding read_hook queue
read_hook-queue r w =
    let (small, at_end) = pending_room r w in
    let (t, run, fits, last) =
      read_loop_lem (pending r) r.size r.size r.current r.thread_current r.cells small small
        w.thread_in at_end in
    (
      record r { thread_current = t },
      rw run refl,
      record { wide = w.wide; current_in = w.current_in; thread_in = fits },
      rw (pending_empty r t w fits last) refl,
    )

-- The reader has been told of whatever is in the queue.
unfoldable pub IsTold {ℓ} : {A : Type ℓ} → RingBus A → Type ℓ
IsTold r = r.signal.notify ≡ true → queue r ≡ []

event_loop_idle {ℓ} :
    {A : Type ℓ} (r : RingBus A) → r.signal.notify ≡ true → event_loop r ≡ ok ([], r)
unfolding event_loop
event_loop_idle r h = ground arith

event_loop_woken {ℓ} :
    {A : Type ℓ} (r : RingBus A)
    → r.signal.notify ≡ false
    → event_loop r ≡ read_hook (record r { signal = record { notify = true } })
unfolding event_loop
event_loop_woken r h = ground arith

queue_signal {ℓ} :
    {A : Type ℓ} (r : RingBus A) (g : Notify) → queue (record r { signal = g }) ≡ queue r
unfolding queue pending
queue_signal r g = refl

-- No value waits for a reader that has not been told of it: one step of the reader hands over
-- everything that has been written and not read, in order, whether the flag was clear or not, and
-- leaves an empty queue.
pub event_loop-queue {ℓ} :
    {A : Type ℓ} (r : RingBus A)
    → IsRing r
    → IsTold r
    → (r' : RingBus A) × (event_loop r ≡ ok (queue r, r')) × IsRing r' × (queue r' ≡ [])
unfolding IsTold
event_loop-queue r w told = elim (Bool-cases r.signal.notify) [
  | inl idle ↦ (r, rw (told idle) (event_loop_idle r idle), w, told idle)
  | inr woken ↦
      let g : Notify = record { notify = true } in
      let (r', e, w', empty) =
        read_hook-queue (record r { signal = g })
          (record { wide = w.wide; current_in = w.current_in; thread_in = w.thread_in }) in
      (r', event_loop_woken r woken ∙ e ∙ ap (λ q. ok (q, r')) (queue_signal r g), w', empty)
]
