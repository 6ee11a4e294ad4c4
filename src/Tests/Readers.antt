-- ===== src/Tests/Readers.antt =====
-- Writers and readers of a memory, and the conversions of bytes, on samples.
use software_on_silicon.Base.{
  ℕ, zero, suc, ◌+◌, ◌-◌, ◌^◌, ◌≤◌, ◌<◌, ◌≡◌, ◌≢◌, refl, arith, true, Array, List, [], ◌∷◌, get_or,
  pos,
}
use software_on_silicon.Errors.{ok, aborted, logic_error, Severity}
use software_on_silicon.Errors.Code.{ErrorCode}
use software_on_silicon.Signals.{cleared, raised, new_hand_shake}
use software_on_silicon.Memory.{Blocker}
use software_on_silicon.Memory.Reader.{Source, turns}
use software_on_silicon.Memory.Priority.{WritePriority, new_write_priority, priority_rounds}
use software_on_silicon.Memory.Priority.Pattern.{pattern_at, priority_rounds-pattern_at}
use software_on_silicon.Memory.Wait.{
  Crossing, WriterAt, ReaderAt, Polls, Crosses, new_crossing, begin_write, end_write, test_writing,
  restore_writing, test_writing_lem, restore_writing-end_write,
}
use software_on_silicon.Memory.Request.{
  ReaderBus, request_block, reader_loop, reader_loop-request_block,
}
use software_on_silicon.Wire.{byte_of_bitset, bitset_to_bytearray}
use software_on_silicon.Wire.Numbers.{
  bytearray_to_bitset, bytearray_to_unsigned_number, bitset_to_bytearray-bytearray_to_bitset,
}

abbrev four_hundred : ℕ
four_hundred = 400

priority_rounds-pattern_at_example :
    (400 ≤ 1000
      → (t : WritePriority ℕ) × (priority_rounds {A = ℕ} 1 0 400 (new_write_priority 1000 9) ≡ ok t)
        × (t.counter < 666)
        × ((i : ℕ) → i < 400 → t.blocker.cells i ≡ pattern_at 1 0 i))
    × (four_hundred ≡ suc 1000
        → priority_rounds {A = ℕ} 1 0 400 (new_write_priority 1000 9)
          ≡ logic_error ErrorCode.writer_buffer_full)
priority_rounds-pattern_at_example = priority_rounds-pattern_at 1 0 9 1000 400

begin-Crosses : Crosses (begin_write new_crossing)
unfolding new_crossing
begin-Crosses = Crosses.begins new_crossing Crosses.starts refl

new_crossing-polling : new_crossing.reader ≡ ReaderAt.polling
unfolding new_crossing
new_crossing-polling = refl

new_crossing-reads : (test_writing new_crossing).reads ≢ new_crossing.reads
unfolding test_writing new_crossing
new_crossing-reads = λ e. omega arith

test_writing_example : new_crossing.writer ≡ WriterAt.resting
test_writing_example =
    test_writing_lem new_crossing Crosses.starts new_crossing-polling new_crossing-reads

-- The reader has found a write.
abbrev found : Crossing
found = test_writing (begin_write new_crossing)

found-Polls : Polls (begin_write new_crossing) found
unfolding begin_write new_crossing
found-Polls = Polls.tests (begin_write new_crossing) Polls.waits refl

found-Crosses : Crosses found
found-Crosses = Crosses.polls (begin_write new_crossing) found begin-Crosses found-Polls

found-restoring : (found.reader ≡ ReaderAt.restoring) × (found.writer ≡ WriterAt.writing)
unfolding test_writing begin_write new_crossing
found-restoring = (refl, refl)

abbrev lost : Crossing
lost = restore_writing (end_write found)

abbrev polled : Crossing
polled = test_writing lost

lost-Polls : Polls lost polled
unfolding restore_writing
lost-Polls = Polls.tests lost Polls.waits refl

restore_writing-end_write_example :
    (polled.reads ≡ found.reads) × (polled.writer ≡ WriterAt.resting)
restore_writing-end_write_example =
    restore_writing-end_write found polled found-Crosses (found-restoring.0) (found-restoring.1)
      lost-Polls

abbrev two_cells : ReaderBus
two_cells = record { signal = new_hand_shake; begin = 10; after_last = 12; offset = pos 0 }

abbrev at_rest : Blocker ℕ
at_rest = record {
  size = 5;
  cells = λ i. i;
  bk_start = 0;
  bk_end = 0;
  writing = true;
  reading = true;
}

abbrev quiet : List (Blocker ℕ)
quiet = at_rest ∷ at_rest ∷ []

reader_loop-request_block_example :
    (2 + (12 - 10) ≤ 5
      → 12 - 10 ≤ turns quiet
      → (c : ReaderBus) × (after : Array ℕ) × (reader_loop 7 5
            (request_block two_cells 2)
            (λ i. 0)
            quiet
          ≡ ok (c, after))
        × (c.signal.updated ≡ raised)
        × (c.signal.acknowledge ≡ cleared)
        × ((i : ℕ) → i < 12 - 10 → Source 7 (2 + i) (after i) quiet)
        × ((i : ℕ) → 12 - 10 ≤ i → after i ≡ 0)
        × ((more : List (Blocker ℕ)) → reader_loop 7 5 c after more ≡ ok (c, after)))
    × (5 < 2 + (12 - 10)
        → reader_loop 7 5 (request_block two_cells 2) (λ i. 0) quiet
          ≡ aborted Severity.runtime ErrorCode.readindex_out_of_bounds)
reader_loop-request_block_example = reader_loop-request_block 7 5 2 two_cells (λ i. 0) quiet

abbrev three_bytes : Array ℕ
three_bytes i = get_or (200 ∷ 100 ∷ 50 ∷ []) i 0

three_bytes-bound : (i : ℕ) → three_bytes i < 256
three_bytes-bound zero = omega arith
three_bytes-bound (suc zero) = omega arith
three_bytes-bound (suc (suc zero)) = omega arith
three_bytes-bound (suc (suc (suc i))) = omega arith

bitset_to_bytearray-bytearray_to_bitset_example :
    (x : ℕ) × (bytearray_to_bitset 3 24 three_bytes ≡ ok x)
    × (x < 2 ^ 24)
    × (bitset_to_bytearray x ≡ ok (byte_of_bitset x))
    × ((i : ℕ) → i < 3 → byte_of_bitset x i ≡ three_bytes i)
    × (bytearray_to_unsigned_number 3 (λ i. three_bytes (2 - i)) ≡ x)
bitset_to_bytearray-bytearray_to_bitset_example =
    bitset_to_bytearray-bytearray_to_bitset three_bytes three_bytes-bound
