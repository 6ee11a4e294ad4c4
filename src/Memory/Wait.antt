-- ===== src/Memory/Wait.antt =====
-- `wait` of a reader of include/software-on-silicon/MemoryController.hpp next to the writer of that
-- file, `NonBlockingWriteTask::write`, one access to the flag `writing` at a time. The writer of
-- impl/RingToMemory.cpp, which sets the flag before it copies, is not this one.
use software_on_silicon.Base.{
  ℕ, suc, ◌≡◌, ◌≢◌, refl, sym, ◌∙◌, inl, inr, arith, Bool-cases, if◌then◌else◌,
}
use software_on_silicon.Signals.{Flag, test_and_set, cleared, raised}

pub data WriterAt : Type 0 where
  resting : WriterAt
  writing : WriterAt

-- The reader is about to test, or has found a write and is about to clear the flag again.
pub data ReaderAt : Type 0 where
  polling : ReaderAt
  restoring : ReaderAt

-- `reads` counts the times that `wait` lets the reader go on.
pub record Crossing : Type 0 where
  pub flag : Flag
  pub writer : WriterAt
  pub reader : ReaderAt
  pub reads : ℕ

-- After the constructor of `NonBlockingWriteTask`.
unfoldable pub new_crossing : Crossing
new_crossing = record {
  flag = raised;
  writer = WriterAt.resting;
  reader = ReaderAt.polling;
  reads = 0;
}

-- `NonBlockingWriteTask::write`: the flag is cleared before the memory changes, and set after.
unfoldable pub begin_write : Crossing → Crossing
begin_write c = record c { flag = cleared; writer = WriterAt.writing }

unfoldable pub end_write : Crossing → Crossing
end_write c = record c { flag = raised; writer = WriterAt.resting }

-- `wait`: the test, and the clear that follows it when a write was found.
unfoldable pub test_writing : Crossing → Crossing
test_writing c =
    let (idle, f) = test_and_set c.flag in
    if idle
    then record c { flag = f; reads = suc c.reads }
    else record c { flag = f; reader = ReaderAt.restoring }

unfoldable pub restore_writing : Crossing → Crossing
restore_writing c = record c { flag = cleared; reader = ReaderAt.polling }

-- Steps of the reader alone, and of both.
pub data Polls (c : Crossing) : Crossing → Type 0 where
  waits : Polls c c
  tests : (d : Crossing) → Polls c d → d.reader ≡ ReaderAt.polling → Polls c (test_writing d)
  restores :
      (d : Crossing) → Polls c d → d.reader ≡ ReaderAt.restoring → Polls c (restore_writing d)

pub data Crosses : Crossing → Type 0 where
  starts : Crosses new_crossing
  begins : (d : Crossing) → Crosses d → d.writer ≡ WriterAt.resting → Crosses (begin_write d)
  ends : (d : Crossing) → Crosses d → d.writer ≡ WriterAt.writing → Crosses (end_write d)
  polls : (c d : Crossing) → Crosses c → Polls c d → Crosses d

-- While the reader is about to test, a write in progress shows in the flag.
abbrev IsShown : Crossing → Type 0
IsShown c = c.reader ≡ ReaderAt.polling → c.writer ≡ WriterAt.writing → c.flag ≡ cleared

distinct :
    (ReaderAt.restoring ≢ ReaderAt.polling)
    × (WriterAt.resting ≢ WriterAt.writing)
    × (raised ≢ cleared)
distinct = (λ e. cc, λ e. cc, λ e. cc)

-- A test that finds the flag clear, and one that finds it set.
test_clear : (d : Crossing) → d.flag ≡ cleared → (test_writing d).reader ≡ ReaderAt.restoring
unfolding test_writing
test_clear d e = ground (arith, e)

test_set :
    (d : Crossing)
    → d.flag ≡ raised
    → ((test_writing d).writer ≡ d.writer) × ((test_writing d).reader ≡ d.reader)
unfolding test_writing
test_set d e = (ground (arith, e), ground (arith, e))

test_kept :
    (d : Crossing)
    → d.flag ≡ cleared
    → ((test_writing d).reads ≡ d.reads) × ((test_writing d).writer ≡ d.writer)
unfolding test_writing
test_kept d e = (ground (arith, e), ground (arith, e))

test_writing-IsShown :
    (d : Crossing) → d.reader ≡ ReaderAt.polling → IsShown d → IsShown (test_writing d)
test_writing-IsShown d e h = λ p w. elim (Bool-cases d.flag) [
  | inl set ↦
      let (writer, reader) = test_set d set in absurd (distinct.2 (sym set ∙ h e (sym writer ∙ w)))
  | inr clear ↦ absurd (distinct.0 (sym (test_clear d clear) ∙ p))
]

Polls-IsShown : {c d : Crossing} → Polls c d → IsShown c → IsShown d
unfolding restore_writing
Polls-IsShown waits h = h
Polls-IsShown (tests d r e) h = test_writing-IsShown d e (Polls-IsShown r h)
Polls-IsShown (restores d r e) h = λ p w. refl

Crosses-IsShown : {c : Crossing} → Crosses c → IsShown c
unfolding new_crossing begin_write end_write
Crosses-IsShown starts = λ p w. absurd (distinct.1 w)
Crosses-IsShown (begins d r e) = λ p w. refl
Crosses-IsShown (ends d r e) = λ p w. absurd (distinct.1 w)
Crosses-IsShown (polls c d r s) = Polls-IsShown s (Crosses-IsShown r)

-- However the reader's accesses to the flag fall between those of `NonBlockingWriteTask::write`, `wait`
-- lets the reader go on only at a moment at which no such write is in progress.
pub test_writing_lem :
    (c : Crossing)
    → Crosses c
    → c.reader ≡ ReaderAt.polling
    → (test_writing c).reads ≢ c.reads
    → c.writer ≡ WriterAt.resting
test_writing_lem c r e more = elim (Bool-cases c.flag) [
  | inl set ↦ at_rest c.writer (λ w. distinct.2 (sym set ∙ Crosses-IsShown r e w))
  | inr clear ↦ absurd (more (test_kept c clear).0)
]
  where
    at_rest : (w : WriterAt) → (w ≢ WriterAt.writing) → w ≡ WriterAt.resting
    at_rest WriterAt.resting ne = refl
    at_rest WriterAt.writing ne = absurd (ne refl)

-- The flag is clear whenever the reader is about to test.
record IsLost (c d : Crossing) : Type 0 where
  shut : d.reader ≡ ReaderAt.polling → d.flag ≡ cleared
  same : (d.reads ≡ c.reads) × (d.writer ≡ c.writer)

Polls-IsLost : {c e d : Crossing} → Polls e d → IsLost c e → IsLost c d
unfolding restore_writing
Polls-IsLost waits k = k
Polls-IsLost (tests d r p) k =
    let l = Polls-IsLost r k in
    let clear = l.shut p in
    let (reads, writer) = test_kept d clear in
    record {
      shut = λ q. absurd (distinct.0 (sym (test_clear d clear) ∙ q));
      same = (reads ∙ l.same.0, writer ∙ l.same.1);
    }
Polls-IsLost (restores d r p) k =
    let l = Polls-IsLost r k in record { shut = λ q. refl; same = l.same }

-- A `NonBlockingWriteTask::write` that ends between the two accesses of `wait` is lost: the reader, which has found the
-- write, clears the flag that the writer has just set. From then on no number of polls lets the
-- reader go on, although no write is in progress.
pub restore_writing-end_write :
    (c d : Crossing)
    → Crosses c
    → c.reader ≡ ReaderAt.restoring
    → c.writer ≡ WriterAt.writing
    → Polls (restore_writing (end_write c)) d
    → (d.reads ≡ c.reads) × (d.writer ≡ WriterAt.resting)
unfolding restore_writing end_write
restore_writing-end_write c d r found busy s =
    let k = Polls-IsLost {c = end_write c} s (record { shut = λ q. refl; same = (refl, refl) }) in
    k.same
