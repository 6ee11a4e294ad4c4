-- ===== src/Tests/Buffers.antt =====
-- The ring buffer and the memory on samples of their own.
use software_on_silicon.Base.{
  ℕ, ◌+◌, ◌<◌, ◌≤◌, ◌≡◌, refl, arith, true, false, length, get_or, All, List, [], ◌∷◌, ◌++◌,
}
use software_on_silicon.Errors.{ok, aborted, Severity, ◌>>=◌}
use software_on_silicon.Errors.Code.{ErrorCode}
use software_on_silicon.Ring.{RingBus, write_interleaved}
use software_on_silicon.Ring.Fifo.{IsRing, IsTold, queue, write_interleaved-queue}
use software_on_silicon.Memory.{Blocker, Reading, write_block, ring_to_memory, read}
use software_on_silicon.Ring.Producer.{pieces, write_pieces, run_rounds, run_rounds-pieces}
use software_on_silicon.Memory.Producer.{
  produce, alternating, star, underscore, produce-alternating,
}
use software_on_silicon.Memory.Writer.{IsQuiet, log, joined}
use software_on_silicon.Memory.Settled.{Keeps, read-ring_to_memory}
use software_on_silicon.Memory.Reader.{turns}

-- Three cells, of which one holds the value that has been written and not read.
abbrev ring : RingBus (List ℕ)
ring = record {
  size = 3;
  cells = λ i. 7 ∷ 8 ∷ [];
  current = 2;
  thread_current = 0;
  signal = record { notify = false };
}

ring-IsRing : IsRing ring
ring-IsRing = record { wide = omega arith; current_in = omega arith; thread_in = omega arith }

ring-IsTold : IsTold ring
unfolding IsTold
ring-IsTold = λ h. cc

write_interleaved-queue_example :
    (length (queue ring) + 1 < 3
      → (r' : RingBus (List ℕ)) × (write_interleaved ring (9 ∷ []) ≡ ok r')
        × IsRing r'
        × (queue r' ≡ queue ring ++ ((9 ∷ []) ∷ []))
        × (r'.signal.notify ≡ false))
    × (length (queue ring) + 1 ≡ 3
        → write_interleaved ring (9 ∷ [])
          ≡ aborted Severity.runtime ErrorCode.ringbuffer_too_slow_or_not_big_enough)
write_interleaved-queue_example = write_interleaved-queue ring (9 ∷ []) ring-IsRing

-- A memory of eight cells, of which one has been written.
abbrev store : Blocker ℕ
store = record {
  size = 8;
  cells = λ i. i;
  bk_start = 1;
  bk_end = 1;
  writing = true;
  reading = true;
}

store-IsQuiet : IsQuiet store
store-IsQuiet = record { settled = refl; inside = omega arith; unlocked = refl }

room_left : store.bk_start + length (joined (queue ring)) ≤ 8
unfolding queue joined
room_left = omega arith

block_inside : 0 + 3 ≤ store.bk_start + length (joined (queue ring))
unfolding queue joined
block_inside = omega arith

read-ring_to_memory_example :
    (r' : RingBus (List ℕ)) × (c : Blocker ℕ) × (ring_to_memory ring store ≡ ok (r', c))
    × ((next : Blocker ℕ) (xs : List ℕ) → write_block c xs ≡ ok next → Keeps c next)
    × ((rounds : List (Blocker ℕ))
        → All (Keeps c) rounds
        → 3 ≤ turns rounds
        → (t : Reading ℕ) × (read 88 8 3 0 (λ i. 0) rounds ≡ ok t)
          × ((i : ℕ) → i < 3 → t.out i ≡ get_or (log store ++ joined (queue ring)) (0 + i) 5))
read-ring_to_memory_example =
    read-ring_to_memory 88 5 ring store 0 3 (λ i. 0) ring-IsRing ring-IsTold store-IsQuiet room_left
      block_inside

-- Two cells, of which none holds a value that has not been read.
abbrev short_ring : RingBus (List ℕ)
short_ring = record {
  size = 2;
  cells = λ i. [];
  current = 1;
  thread_current = 0;
  signal = record { notify = true };
}

short_ring-IsRing : IsRing short_ring
short_ring-IsRing = record { wide = omega arith; current_in = omega arith; thread_in = omega arith }

short_ring-queue : queue short_ring ≡ []
unfolding queue
short_ring-queue = refl

run_rounds-pieces_example :
    ((t : RingBus (List ℕ)) × (run_rounds 5 (7 ∷ []) short_ring ≡ ok (pieces 5 2 (7 ∷ []), t))
      × IsRing t
      × (queue t ≡ []))
    × ((write_pieces (7 ∷ []) short_ring >>= λ t. write_pieces (7 ∷ []) t)
        ≡ aborted Severity.runtime ErrorCode.ringbuffer_too_slow_or_not_big_enough)
run_rounds-pieces_example =
    run_rounds-pieces 5 (7 ∷ []) short_ring short_ring-IsRing short_ring-queue

produce-alternating_example :
    (next : ℕ) × (r' : RingBus (List ℕ)) × (b' : Blocker ℕ) × (produce 3 2 0 short_ring store
      ≡ ok (next, r', b'))
    × IsRing r'
    × (queue r' ≡ [])
    × IsQuiet b'
    × (log b' ≡ log store ++ alternating 3 1 star underscore)
produce-alternating_example =
    produce-alternating 3 1 short_ring store short_ring-IsRing short_ring-queue store-IsQuiet
      (omega arith)
