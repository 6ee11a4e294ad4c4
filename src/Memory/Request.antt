-- ===== src/Memory/Request.antt =====
-- `ReaderBus` and `Reader::event_loop` of include/software-on-silicon/MemoryController.hpp: a client
-- sets an offset and asks for a block, and the reader acknowledges when it has copied it.
use software_on_silicon.Base.{
  ℕ, ◌+◌, ◌-◌, ◌<◌, ◌≤◌, ◌≡◌, refl, ap, ◌∙◌, arith, not, ltb, ◌==◌, if◌then◌else◌, Array, List, ℤ,
  pos, negsuc,
}
use software_on_silicon.Errors.{Outcome, ok, aborted, spin, Severity, runtime_error, ◌>>=◌}
use software_on_silicon.Errors.Code.{ErrorCode}
use software_on_silicon.Signals.{HandShake, new_hand_shake, test_and_set, cleared, raised}
use software_on_silicon.Memory.{Blocker, Reading, read}
use software_on_silicon.Memory.Reader.{Source, turns, read-Source}

-- The bus of a reader into the buffer between two positions.
pub record ReaderBus : Type 0 where
  pub signal : HandShake
  pub begin : ℕ
  pub after_last : ℕ
  pub offset : ℤ

-- `ReaderBus::ReaderBus` and `setOffset`
unfoldable pub set_offset : ReaderBus → ℤ → ReaderBus
set_offset b offset = record b { offset = offset }

unfoldable pub new_reader_bus : ℕ → ℕ → Outcome ReaderBus
unfolding new_hand_shake set_offset
new_reader_bus begin after_last =
    if ltb after_last begin
    then runtime_error ErrorCode.invalid_read_destination
    else ok (
        set_offset
          (record {
            signal = new_hand_shake;
            begin = begin;
            after_last = after_last;
            offset = pos 0;
          })
          (pos 0))

-- `ReadTask::read` at the offset of the bus, which must not be negative.
unfoldable pub read_at {ℓ} :
    {A : Type ℓ} → A → ℕ → ℕ → ℤ → Array A → List (Blocker A) → Outcome (Reading A)
unfolding read
read_at mark mc_size rb_length (pos n) out rounds = read mark mc_size rb_length n out rounds
read_at mark mc_size rb_length (negsuc n) out rounds =
    runtime_error ErrorCode.negative_readoffset_supplied

-- What follows the read: the acknowledge. A read that the rounds do not finish goes on.
unfoldable pub finish_request {ℓ} :
    {A : Type ℓ} → ReaderBus → Reading A → Outcome (ReaderBus × Array A)
finish_request b t =
    if t.rb == 0
    then ok (record b { signal = record (b.signal) { acknowledge = cleared } }, t.out)
    else spin

finish_request_lem :
    {A : Type 0} (b : ReaderBus) (t : Reading A)
    → t.rb ≡ 0
    → finish_request b t
      ≡ ok (record b { signal = record (b.signal) { acknowledge = cleared } }, t.out)
unfolding finish_request
finish_request_lem b t e = ground (arith, e)

-- `Reader::event_loop`: the bus and the cells of its buffer.
unfoldable pub reader_loop {ℓ} :
    {A : Type ℓ} → A → ℕ → ReaderBus → Array A → List (Blocker A) → Outcome (ReaderBus × Array A)
unfolding read_at finish_request
reader_loop mark mc_size b out rounds =
    let (idle, f) = test_and_set b.signal.updated in
    let c = record b { signal = record (b.signal) { updated = f } } in
    if not idle
    then read_at mark mc_size (b.after_last - b.begin) b.offset out rounds >>= finish_request c
    else ok (c, out)

-- A request, as a client makes it.
unfoldable pub request_block : ReaderBus → ℕ → ReaderBus
unfolding set_offset
request_block b n =
    let c = set_offset b (pos n) in record c { signal = record (c.signal) { updated = cleared } }

-- A client that asks for a block inside the memory, and a writer that leaves the reader at least as
-- many quiet rounds as its buffer has cells: the reader takes the request back and acknowledges it,
-- and each cell of the buffer holds the mark or a value that the memory had at that place during
-- the read, at a moment without a write and outside the range being written. The cells past the
-- buffer stay as they are, and a second step without a request changes nothing. A block that ends
-- past the memory is reported.
pub reader_loop-request_block :
    {A : Type 0} (mark : A) (mc_size n : ℕ) (b : ReaderBus) (out : Array A)
    (rounds : List (Blocker A))
    → let size = b.after_last - b.begin in
      (n + size ≤ mc_size
        → size ≤ turns rounds
        → (c : ReaderBus) × (after : Array A) × (reader_loop mark mc_size
              (request_block b n)
              out
              rounds
            ≡ ok (c, after))
          × (c.signal.updated ≡ raised)
          × (c.signal.acknowledge ≡ cleared)
          × ((i : ℕ) → i < size → Source mark (n + i) (after i) rounds)
          × ((i : ℕ) → size ≤ i → after i ≡ out i)
          × ((more : List (Blocker A)) → reader_loop mark mc_size c after more ≡ ok (c, after)))
      × (mc_size < n + size
          → reader_loop mark mc_size (request_block b n) out rounds
            ≡ aborted Severity.runtime ErrorCode.readindex_out_of_bounds)
unfolding reader_loop read_at finish_request request_block
reader_loop-request_block mark mc_size n b out rounds =
    let asked = record (request_block b n) {
      signal = record { updated = raised; acknowledge = b.signal.acknowledge };
    } in
    (
      λ inside quiet.
          let (t, e, left, source, kept) =
            (read-Source mark mc_size (b.after_last - b.begin) n out rounds).1 inside in
          let done : t.rb ≡ 0 = omega arith in
          let c = record (request_block b n) {
            signal = record { updated = raised; acknowledge = cleared };
          } in
          (
            c,
            t.out,
            ap (λ m. m >>= finish_request asked) e ∙ finish_request_lem asked t done,
            refl,
            refl,
            λ i low. source i (omega arith) low,
            kept,
            λ more. refl,
          ),
      λ far.
          ap (λ m. m >>= finish_request asked)
            ((read-Source mark mc_size (b.after_last - b.begin) n out rounds).0 far),
    )
