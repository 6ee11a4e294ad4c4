-- ===== src/Memory.antt =====
-- `BlockerBus`, `NonBlockingWriteTask`, `ReadTask` and `Reader` of
-- include/software-on-silicon/MemoryController.hpp with the tasks of impl/RingToMemory.cpp: a memory
-- that a writer fills from its start, and a reader that copies a block of it at the same time.
pub mod Writer
pub mod Reader
pub mod Priority
pub mod Wait
pub mod Request
pub mod Settled
pub mod Producer
use software_on_silicon.Base.{
  ℕ, zero, suc, ◌+◌, ◌-◌, Bool, true, false, not, ◌||◌, ltb, leb, ◌==◌, if◌then◌else◌, Array,
  update, List, [], ◌∷◌, length,
}
use software_on_silicon.Errors.{Outcome, ok, logic_error, runtime_error, ◌>>=◌}
use software_on_silicon.Errors.Code.{ErrorCode}
use software_on_silicon.Signals.{Flag, HandShake, test_and_set, cleared, raised}
use software_on_silicon.Ring.{RingBus, event_loop}

-- `BlockerBus` over a memory of `size` cells, with positions counted from its start.
pub record Blocker {ℓ} (A : Type ℓ) : Type ℓ where
  pub size : ℕ
  pub cells : Array A
  pub bk_start : ℕ
  pub bk_end : ℕ
  pub writing : Flag
  pub reading : Flag

-- The constructors of `BlockerBus` and of `NonBlockingWriteTask`, over a memory filled with `blank`.
unfoldable pub new_blocker {ℓ} : {A : Type ℓ} → ℕ → A → Blocker A
new_blocker size blank = record {
  size = size;
  cells = λ i. blank;
  bk_start = 0;
  bk_end = 0;
  writing = raised;
  reading = raised;
}

-- `NonBlockingWriteTask::write`
unfoldable pub write {ℓ} : {A : Type ℓ} → Blocker A → A → Outcome (Blocker A)
write b character =
    let writer_pos = b.bk_start in
    if not (writer_pos == b.size)
    then ok (record b {
      bk_end = b.bk_end + 1;
      cells = update b.cells writer_pos character;
      bk_start = writer_pos + 1;
      writing = raised;
    })
    else logic_error ErrorCode.writer_buffer_full

-- `std::copy`: the cells and the position after them.
unfoldable pub copy {ℓ} : {A : Type ℓ} → List A → Array A → ℕ → Array A × ℕ
copy [] cells pos = (cells, pos)
copy (x ∷ xs) cells pos = copy xs (update cells pos x) (pos + 1)

-- `RingBufferTaskImpl::write` of a whole block.
unfoldable pub write_block {ℓ} : {A : Type ℓ} → Blocker A → List A → Outcome (Blocker A)
unfolding copy
write_block b character =
    if leb (length character) (b.size - b.bk_start)
    then (let (cells, writer_pos) = copy character b.cells b.bk_start in
        let t = record b {
          bk_end = b.bk_start + length character;
          cells = cells;
          bk_start = writer_pos;
          writing = raised;
        } in
        if not (t.bk_start == t.bk_end) then logic_error ErrorCode.unexpected_writes_left else ok t)
    else logic_error ErrorCode.character_write_range_failed

-- The `transfer` of each value that a step of the ring buffer hands over.
unfoldable pub transfer_all {ℓ} : {A : Type ℓ} → List (List A) → Blocker A → Outcome (Blocker A)
unfolding write_block
transfer_all [] b = ok b
transfer_all (x ∷ xs) b = write_block b x >>= λ t. transfer_all xs t

-- `RingBufferImpl::event_loop`
unfoldable pub ring_to_memory {ℓ} :
    {A : Type ℓ} → RingBus (List A) → Blocker A → Outcome (RingBus (List A) × Blocker A)
unfolding event_loop transfer_all
ring_to_memory r b = event_loop r >>= λ a. transfer_all (a.0) b >>= λ t. ok (a.1, t)

-- A read in progress: the cells of the reader's buffer, the position in it, and the position in the
-- memory.
pub record Reading {ℓ} (A : Type ℓ) : Type ℓ where
  pub out : Array A
  pub rb : ℕ
  pub mc : ℕ
  pub reading : Flag

-- `Reader::wait`: whether a write is in progress.
unfoldable pub wait {ℓ} : {A : Type ℓ} → Blocker A → Bool
wait b = let (idle, f) = test_and_set b.writing in not idle

-- One round of the loop of `ReadTask::read`, with the blocker as the round finds it. `busy` stores
-- the value `mark`.
unfoldable pub read_round {ℓ} : {A : Type ℓ} → A → Blocker A → Reading A → Reading A
unfolding wait
read_round mark b s =
    if wait b
    then s
    else (let rb = s.rb - 1 in
        let mc = s.mc - 1 in
        let value = if ltb mc b.bk_start || ltb b.bk_end mc then b.cells mc else mark in
        record s { out = update s.out rb value; rb = rb; mc = mc; reading = raised })

-- The loop, with the blocker of each round.
unfoldable pub read_rounds {ℓ} : {A : Type ℓ} → A → List (Blocker A) → Reading A → Reading A
unfolding read_round
read_rounds mark [] s = s
read_rounds mark (b ∷ bs) s =
    let rest = read_rounds mark bs (read_round mark b s) in if s.rb == 0 then s else rest

-- `ReadTask::read` into a buffer of `rb_length` cells; the offset is not negative.
unfoldable pub read {ℓ} :
    {A : Type ℓ} → A → ℕ → ℕ → ℕ → Array A → List (Blocker A) → Outcome (Reading A)
unfolding read_rounds
read mark mc_size rb_length read_offset out rounds =
    let mc = read_offset + rb_length in
    if ltb mc_size mc
    then runtime_error ErrorCode.readindex_out_of_bounds
    else ok
        (read_rounds mark rounds (record { out = out; rb = rb_length; mc = mc; reading = raised }))
