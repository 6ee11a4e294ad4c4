-- ===== src/Memory/Settled.antt =====
-- What has been written to the memory stays as it is, and a reader gets it.
use software_on_silicon.Base.{
  ℕ, zero, suc, ◌+◌, ◌-◌, ◌<◌, ◌≤◌, ◌≡◌, refl, sym, ap, ◌∙◌, arith, true, Array, update, update_ne,
  List, [], ◌∷◌, ◌++◌, length, length-append, get_or, All,
}
use native.Mathlib.Decide.{dec_le}
use software_on_silicon.Errors.{ok, logic_error, ok_inj, aborted_not_ok}
use software_on_silicon.Errors.Code.{ErrorCode}
use software_on_silicon.Memory.{Blocker, Reading, copy, write_block, ring_to_memory, read}
use software_on_silicon.Memory.Reader.{Source, turns, read-Source}
use software_on_silicon.Memory.Writer.{
  copy_lem, IsQuiet, cells_from, log, joined, ring_to_memory-log,
}
use software_on_silicon.Ring.{RingBus}
use software_on_silicon.Ring.Fifo.{IsRing, IsTold, queue}

-- `c` comes after `b`: at least as much has been written, and what had been is the same.
pub record Keeps {A : Type 0} (b c : Blocker A) : Type 0 where
  pub start : b.bk_start ≤ c.bk_start
  pub same : (a : ℕ) → a < b.bk_start → c.cells a ≡ b.cells a

copy_below :
    {A : Type 0} (xs : List A) (cells : Array A) (pos a : ℕ)
    → a < pos
    → (copy xs cells pos).0 a ≡ cells a
unfolding copy
copy_below [] cells pos a low = refl
copy_below (x ∷ xs) cells pos a low =
    copy_below xs (update cells pos x) (pos + 1) a (omega arith)
    ∙ update_ne cells pos a x (λ e. omega arith)

-- The writer's next block.
write_block-Keeps :
    {A : Type 0} (b c : Blocker A) (xs : List A) → write_block b xs ≡ ok c → Keeps b c
unfolding write_block
write_block-Keeps b c xs e =
    let stop = (copy_lem xs b.cells b.bk_start).0 in
    let after : Blocker _ = record b {
      bk_end = b.bk_start + length xs;
      cells = (copy xs b.cells b.bk_start).0;
      bk_start = (copy xs b.cells b.bk_start).1;
      writing = true;
    } in
    elim (dec_le (length xs) (b.size - b.bk_start)) [
      | yes room ↦
          let done : write_block b xs ≡ ok after = ground (arith, room, stop) in
          rw (sym (ok_inj (sym done ∙ e))) (record {
            start = omega (arith, stop);
            same = λ a low. copy_below xs b.cells b.bk_start a low;
          })
      | no full ↦
          let failed : write_block b xs ≡ logic_error ErrorCode.character_write_range_failed =
            ground (arith, full) in
          absurd (aborted_not_ok (sym failed ∙ e))
    ]

-- A settled cell is never copied as the mark.
Source-Keeps :
    {A : Type 0} (mark : A) (a : ℕ) (v : A) (b : Blocker A) (bs : List (Blocker A))
    → All (Keeps b) bs
    → a < b.bk_start
    → Source mark a v bs
    → v ≡ b.cells a
Source-Keeps mark a v b _ keeps low (Source.marked c bs quiet above below e) =
    let start = (keeps.0).start in absurd (omega arith)
Source-Keeps mark a v b _ keeps low (Source.copied c bs quiet free e) = e ∙ (keeps.0).same a low
Source-Keeps mark a v b _ keeps low (Source.later c bs s) =
    Source-Keeps mark a v b bs (keeps.1) low s

pub length-cells_from : {A : Type 0} (n i : ℕ) (cells : Array A) → length (cells_from n i cells) ≡ n
unfolding cells_from
length-cells_from zero i cells = refl
length-cells_from (suc n) i cells = ap suc (length-cells_from n (i + 1) cells)

get_or-cells_from :
    {A : Type 0} (n i a : ℕ) (cells : Array A) (d : A)
    → a < n
    → get_or (cells_from n i cells) a d ≡ cells (i + a)
unfolding cells_from
get_or-cells_from zero i a cells d low = absurd (omega arith)
get_or-cells_from (suc n) i zero cells d low = let e : i + 0 ≡ i = omega arith in rw e refl
get_or-cells_from (suc n) i (suc a) cells d low =
    let e : i + suc a ≡ i + 1 + a = omega arith in
    rw e (get_or-cells_from n (i + 1) a cells d (omega arith))

-- From the queue of the ring buffer to a reader of the memory. After a step of the ring buffer with
-- room in the memory, a reader copies a block from what has been written by then, while the writer
-- goes on: the states that its rounds find keep what has been written, as a block that the writer
-- appends does. With as many quiet rounds as
-- the block has cells the read returns with the block of the log, which is what had been written
-- before followed by the queue in its order, whatever the writer does meanwhile.
pub read-ring_to_memory :
    {A : Type 0} (mark d : A) (r : RingBus (List A)) (b : Blocker A) (offset n : ℕ) (out : Array A)
    → IsRing r
    → IsTold r
    → IsQuiet b
    → b.bk_start + length (joined (queue r)) ≤ b.size
    → offset + n ≤ b.bk_start + length (joined (queue r))
    → (r' : RingBus (List A)) × (c : Blocker A) × (ring_to_memory r b ≡ ok (r', c))
      × ((next : Blocker A) (xs : List A) → write_block c xs ≡ ok next → Keeps c next)
      × ((rounds : List (Blocker A))
          → All (Keeps c) rounds
          → n ≤ turns rounds
          → (t : Reading A) × (read mark b.size n offset out rounds ≡ ok t)
            × ((i : ℕ) → i < n → t.out i ≡ get_or (log b ++ joined (queue r)) (offset + i) d))
unfolding log
read-ring_to_memory mark d r b offset n out ring told quiet room block =
    let (r', c, e, ring', empty, quiet', kept) = ring_to_memory-log r b ring told quiet room in
    let start : c.bk_start ≡ b.bk_start + length (joined (queue r)) =
      sym (length-cells_from c.bk_start 0 c.cells)
      ∙ ap length kept
      ∙ length-append (log b) (joined (queue r))
      ∙ ap (λ (k : ℕ). k + length (joined (queue r))) (length-cells_from b.bk_start 0 b.cells) in
    (
      r',
      c,
      e,
      λ next xs f. write_block-Keeps c next xs f,
      λ rounds keeps enough.
          let (t, f, left, source, others) =
            (read-Source mark b.size n offset out rounds).1 (omega arith) in
          (
            t,
            f,
            λ i low.
                Source-Keeps mark (offset + i) (t.out i) c rounds keeps (omega arith)
                  (source i (omega arith) low)
                ∙ ap c.cells (zero_plus (offset + i))
                ∙ sym (get_or-cells_from c.bk_start 0 (offset + i) c.cells d (omega arith))
                ∙ ap (λ (l : List _). get_or l (offset + i) d) kept,
          ),
    )
  where
    zero_plus : (k : ℕ) → k ≡ 0 + k
    zero_plus k = omega arith
