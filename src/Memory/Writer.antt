-- ===== src/Memory/Writer.antt =====
-- The memory as a log to which the writer appends.
use software_on_silicon.Base.{
  ℕ, zero, suc, ◌+◌, ◌<◌, ◌≤◌, ◌≡◌, refl, ap, ◌∙◌, sym, arith, true, Array, update, List, [], ◌∷◌,
  ◌++◌, length, length-append, append_assoc, append-nil,
}
use software_on_silicon.Errors.{ok, aborted, Severity}
use software_on_silicon.Errors.Code.{ErrorCode}
use software_on_silicon.Memory.{Blocker, write, copy, write_block, transfer_all, ring_to_memory}
use software_on_silicon.Ring.{RingBus}
use software_on_silicon.Ring.Fifo.{IsRing, IsTold, queue, event_loop-queue}

-- The cells from `i` on, `n` of them.
unfoldable pub cells_from {ℓ} : {A : Type ℓ} → ℕ → ℕ → Array A → List A
cells_from zero i cells = []
cells_from (suc n) i cells = cells i ∷ cells_from n (i + 1) cells

-- What has been written.
unfoldable pub log {ℓ} : {A : Type ℓ} → Blocker A → List A
unfolding cells_from
log b = cells_from b.bk_start 0 b.cells

-- Between two writes: no cell is being written, and the position lies in the memory.
pub record IsQuiet {ℓ} {A : Type ℓ} (b : Blocker A) : Type ℓ where
  pub settled : b.bk_end ≡ b.bk_start
  pub inside : b.bk_start ≤ b.size
  pub unlocked : b.writing ≡ true

cells_from-update {ℓ} :
    {A : Type ℓ} (n i pos : ℕ) (cells : Array A) (x : A)
    → i + n ≤ pos
    → cells_from n i (update cells pos x) ≡ cells_from n i cells
unfolding cells_from
cells_from-update zero i pos cells x le = refl
cells_from-update (suc n) i pos cells x le =
    rw (cells_from-update n (i + 1) pos cells x (omega arith)) (ground arith)

cells_from_snoc {ℓ} :
    {A : Type ℓ} (n i : ℕ) (cells : Array A)
    → cells_from (suc n) i cells ≡ cells_from n i cells ++ (cells (i + n) ∷ [])
unfolding cells_from
cells_from_snoc zero i cells = ground arith
cells_from_snoc (suc n) i cells =
    let e : i + 1 + n ≡ i + suc n = omega arith in
    ap (λ (xs : List _). cells i ∷ xs) (cells_from_snoc n (i + 1) cells ∙ rw e refl)

append_one {ℓ} :
    {A : Type ℓ} (pos : ℕ) (cells : Array A) (x : A)
    → cells_from (pos + 1) 0 (update cells pos x) ≡ cells_from pos 0 cells ++ (x ∷ [])
append_one pos cells x =
    let e : pos + 1 ≡ suc pos = omega arith in
    let z : 0 + pos ≡ pos = omega arith in
    rw e (
      cells_from_snoc pos 0 (update cells pos x)
      ∙ rw (z, cells_from-update pos 0 pos cells x (omega arith)) (ground arith))

pub copy_lem {ℓ} :
    {A : Type ℓ} (xs : List A) (cells : Array A) (pos : ℕ)
    → ((copy xs cells pos).1 ≡ pos + length xs)
      × (cells_from (pos + length xs) 0 ((copy xs cells pos).0) ≡ cells_from pos 0 cells ++ xs)
unfolding copy
copy_lem [] cells pos =
    let e : pos + 0 ≡ pos = omega arith in
    (omega arith, rw e (sym (append-nil (cells_from pos 0 cells))))
copy_lem (x ∷ xs) cells pos =
    let (stop, kept) = copy_lem xs (update cells pos x) (pos + 1) in
    let e : pos + length (x ∷ xs) ≡ pos + 1 + length xs = omega arith in
    (
      stop ∙ sym e,
      rw e (
          kept
          ∙ ap (λ (l : List _). l ++ xs) (append_one pos cells x)
          ∙ append_assoc (cells_from pos 0 cells) (x ∷ []) xs),
    )

-- One value: with room left, `NonBlockingWriteTask::write` appends it to the log and leaves the
-- memory between two writes; a full memory is reported.
pub write-log {ℓ} :
    {A : Type ℓ} (b : Blocker A) (v : A)
    → IsQuiet b
    → (b.bk_start < b.size
        → (b' : Blocker A) × (write b v ≡ ok b') × IsQuiet b' × (log b' ≡ log b ++ (v ∷ [])))
      × (b.bk_start ≡ b.size → write b v ≡ aborted Severity.logic ErrorCode.writer_buffer_full)
unfolding write log
write-log b v q = (
  λ room. (
    record b {
      bk_end = b.bk_end + 1;
      cells = update b.cells b.bk_start v;
      bk_start = b.bk_start + 1;
      writing = true;
    },
    ground arith,
    record { settled = ap (λ n. n + 1) q.settled; inside = omega arith; unlocked = refl },
    append_one b.bk_start b.cells v,
  ),
  λ full. ground arith,
)

-- A block: with room for all of it, the block is appended to the log, and no writes are left; with
-- less room nothing is written.
pub write_block-log {ℓ} :
    {A : Type ℓ} (b : Blocker A) (xs : List A)
    → IsQuiet b
    → (b.bk_start + length xs ≤ b.size
        → (b' : Blocker A) × (write_block b xs ≡ ok b')
          × IsQuiet b'
          × (log b' ≡ log b ++ xs)
          × (b'.size ≡ b.size)
          × (b'.bk_start ≡ b.bk_start + length xs))
      × (b.size < b.bk_start + length xs
          → write_block b xs ≡ aborted Severity.logic ErrorCode.character_write_range_failed)
unfolding write_block log
write_block-log b xs q =
    let (stop, kept) = copy_lem xs b.cells b.bk_start in
    (
      λ room. (
        record b {
          bk_end = b.bk_start + length xs;
          cells = (copy xs b.cells b.bk_start).0;
          bk_start = (copy xs b.cells b.bk_start).1;
          writing = true;
        },
        ground (arith, stop),
        record { settled = sym stop; inside = rw stop room; unlocked = refl },
        rw stop kept,
        refl,
        stop,
      ),
      λ full. ground (arith, q.inside),
    )

-- The blocks that a ring buffer hands over, one after another.
unfoldable pub joined {ℓ} : {A : Type ℓ} → List (List A) → List A
joined [] = []
joined (x ∷ xs) = x ++ joined xs

length-joined {ℓ} :
    {A : Type ℓ} (x : List A) (xs : List (List A))
    → length (joined (x ∷ xs)) ≡ length x + length (joined xs)
unfolding joined
length-joined x xs = length-append x (joined xs)

transfer_all-log {ℓ} :
    {A : Type ℓ} (xs : List (List A)) (b : Blocker A)
    → IsQuiet b
    → b.bk_start + length (joined xs) ≤ b.size
    → (b' : Blocker A) × (transfer_all xs b ≡ ok b') × IsQuiet b' × (log b' ≡ log b ++ joined xs)
unfolding transfer_all joined
transfer_all-log [] b q room = (b, refl, q, sym (append-nil (log b)))
transfer_all-log (x ∷ xs) b q room =
    let total = length-joined x xs in
    let (c, e, q', kept, size, start) = (write_block-log b x q).0 (omega (arith, total, room)) in
    let (b', e', q'', kept') = transfer_all-log xs c q' (omega (arith, total, room)) in
    (
      b',
      rw e e',
      q'',
      kept' ∙ ap (λ (l : List _). l ++ joined xs) kept ∙ append_assoc (log b) x (joined xs),
    )

-- From the ring buffer into the memory: one step of the reader takes everything out of the queue
-- and, where the memory has room for it, appends it to the log, in the order in which it was
-- written and with nothing lost.
pub ring_to_memory-log {ℓ} :
    {A : Type ℓ} (r : RingBus (List A)) (b : Blocker A)
    → IsRing r
    → IsTold r
    → IsQuiet b
    → b.bk_start + length (joined (queue r)) ≤ b.size
    → (r' : RingBus (List A)) × (b' : Blocker A) × (ring_to_memory r b ≡ ok (r', b'))
      × IsRing r'
      × (queue r' ≡ [])
      × IsQuiet b'
      × (log b' ≡ log b ++ joined (queue r))
unfolding ring_to_memory
ring_to_memory-log r b w told q room =
    let (r', e, w', empty) = event_loop-queue r w told in
    let (b', e', q', kept) = transfer_all-log (queue r) b q room in
    (r', b', rw e (rw e' refl), w', empty, q', kept)
