-- ===== src/Block/Receiver.antt =====
-- The receiving side of an object transfer: one call of `read_object` at each place of a group.
use software_on_silicon.Base.{
  ℕ, zero, suc, ◌+◌, ◌*◌, ◌%◌, ◌^◌, ◌<◌, ◌≤◌, ◌≡◌, refl, arith, true, false, Array, update,
}
use native.Mathlib.Decide.{dec_lt}
use software_on_silicon.Errors.{ok}
use software_on_silicon.Sync.{lock_descriptors, unlock_descriptors, emit_received}
use software_on_silicon.Wire.RoundTrip.{
  overlaid, read_at_zero, read_at_one, read_at_two, read_at_three, read_flush_lem,
}
use software_on_silicon.Block.{Block, descriptor, memory, find_read_lock, read_object, next_size}

-- A receiver that is to store byte `pos` of object `id`, `phase` bytes into a group, with `bits`
-- received of the group.
pub record Receiving (b : Block) (id obj size pos phase bits : ℕ) : Type 0 where
  pub locked : b.receive_lock ≡ true
  pub destination : b.read_destination ≡ id
  pub address : (descriptor b id).obj ≡ obj
  pub extent : (descriptor b id).obj_size ≡ size
  pub small : size < 2 ^ 64
  pub position : b.read_destination_pos ≡ pos
  pub counted : b.read4minus1 ≡ phase
  pub coded : b.codec.read_count ≡ phase
  pub assembly : b.codec.read_assembly ≡ bits
  pub unlocked : b.sync.bus.descriptors_updated ≡ false

-- The object's last group has been stored.
pub record Received (b b' : Block) (id : ℕ) : Type 0 where
  pub released : b'.receive_lock ≡ false
  pub unlocked_read : b'.read_lock id ≡ false
  pub others : (j : ℕ) → (id ≡ j → ⊥) → b'.read_lock j ≡ b.read_lock j
  pub reported : (b'.sync.bus.switches id).read_ack ≡ false
  pub quiet : (b'.sync.bus.switches id).read_op.notify ≡ true
  pub rewound : b'.read_destination_pos ≡ 0
  pub aligned : b'.read4minus1 ≡ 0
  pub coded : b'.codec.read_count ≡ 0
  pub emptied : b'.codec.read_assembly ≡ 0
  pub unlocked : b'.sync.bus.descriptors_updated ≡ false

-- Memory with three bytes stored from an address on.
abbrev pub stored3 : Array ℕ → ℕ → ℕ → ℕ → ℕ → ℕ → Array ℕ
stored3 m obj pos b0 b1 b2 =
    update (update (update m (obj + pos) b0) (obj + (pos + 1)) b1) (obj + (pos + 2)) b2

abbrev gathered : Block → ℕ → ℕ → Block
gathered b phase bits = record b { codec = overlaid b.codec phase bits; read4minus1 = phase }

module _ (b : Block) (id obj size pos : ℕ) (r : ℕ) where
  pub gather_first :
      Receiving b id obj size pos 0 0
      → (b' : Block) × (read_object b r ≡ ok b')
        × Receiving b' id obj size pos 1 (r % 64 * 2 ^ 18)
        × (memory b' ≡ memory b)
        × (b'.read_lock ≡ b.read_lock)
  unfolding read_object
  gather_first s = (
    gathered b 1 (r % 64 * 2 ^ 18),
    ground (arith, read_at_zero b.codec 0 r s.coded s.assembly),
    ground arith,
    refl,
    refl,
  )

  pub gather_second :
      (high : ℕ)
      → Receiving b id obj size pos 1 (high * 2 ^ 18)
      → (b' : Block) × (read_object b r ≡ ok b')
        × Receiving b' id obj size pos 2 ((high * 64 + r % 64) * 2 ^ 12)
        × (memory b' ≡ memory b)
        × (b'.read_lock ≡ b.read_lock)
  unfolding read_object
  gather_second high s = (
    gathered b 2 ((high * 64 + r % 64) * 2 ^ 12),
    ground (arith, read_at_one b.codec high r s.coded s.assembly),
    ground arith,
    refl,
    refl,
  )

  pub gather_third :
      (high : ℕ)
      → Receiving b id obj size pos 2 (high * 2 ^ 12)
      → (b' : Block) × (read_object b r ≡ ok b')
        × Receiving b' id obj size pos 3 ((high * 64 + r % 64) * 2 ^ 6)
        × (memory b' ≡ memory b)
        × (b'.read_lock ≡ b.read_lock)
  unfolding read_object
  gather_third high s = (
    gathered b 3 ((high * 64 + r % 64) * 2 ^ 6),
    ground (arith, read_at_two b.codec high r s.coded s.assembly),
    ground arith,
    refl,
    refl,
  )

-- The call that ends a group stores its three bytes.
module _ (b : Block) (id obj size pos high r b0 b1 b2 : ℕ) (h0 : b0 < 256) (h1 : b1 < 256)
    (h2 : b2 < 256) (s : Receiving b id obj size pos 3 (high * 2 ^ 6))
    (carried : high * 64 + r % 64 ≡ (b0 * 256 + b1) * 256 + b2) where
  -- The group in the middle of an object.
  pub store_middle :
      pos + 3 < size
      → (b' : Block) × (read_object b r ≡ ok b')
        × Receiving b' id obj size (pos + 3) 0 0
        × (memory b' ≡ stored3 (memory b) obj pos b0 b1 b2)
        × (b'.read_lock ≡ b.read_lock)
  unfolding read_object lock_descriptors unlock_descriptors
  store_middle room =
      let c3 = overlaid b.codec 0 (high * 64 + r % 64) in
      let (bytes, e, e0, e1, e2) = read_flush_lem c3 b0 b1 b2 h0 h1 h2 carried in
      (
        record b {
          codec = overlaid b.codec 0 0;
          read4minus1 = 0;
          read_destination_pos = pos + 3;
          sync = record (b.sync) {
            bus = record (b.sync.bus) { memory = stored3 (memory b) obj pos b0 b1 b2 };
          };
        },
        ground (arith, read_at_three b.codec high r s.coded s.assembly, e),
        ground arith,
        refl,
        refl,
      )

  -- The group that completes the object.
  pub store_last :
      pos + 3 ≡ size
      → (b' : Block) × (read_object b r ≡ ok b')
        × Received b b' id
        × (memory b' ≡ stored3 (memory b) obj pos b0 b1 b2)
  unfolding read_object lock_descriptors unlock_descriptors emit_received
  store_last done =
      let c3 = overlaid b.codec 0 (high * 64 + r % 64) in
      let (bytes, e, e0, e1, e2) = read_flush_lem c3 b0 b1 b2 h0 h1 h2 carried in
      let stored = record (b.sync) {
        bus = record (b.sync.bus) { memory = stored3 (memory b) obj pos b0 b1 b2 };
      } in
      (
        record b {
          codec = overlaid b.codec 0 0;
          read4minus1 = 0;
          read_destination_pos = 0;
          receive_lock = false;
          read_lock = update b.read_lock id false;
          rx_counter = update b.rx_counter id (next_size (b.rx_counter id));
          sync = emit_received stored id;
        },
        ground (arith, read_at_three b.codec high r s.coded s.assembly, e),
        record {
          released = refl;
          unlocked_read = ground arith;
          others = λ j ne. ground arith;
          reported = ground arith;
          quiet = ground arith;
          rewound = refl;
          aligned = refl;
          coded = refl;
          emptied = refl;
          unlocked = s.unlocked;
        },
        refl,
      )

-- The search takes the first read-locked object.
pub find_read_lock_lem :
    (n j id : ℕ) (b : Block)
    → j ≤ id
    → id < j + n
    → b.read_lock id ≡ true
    → ((i : ℕ) → i < id → b.read_lock i ≡ false)
    → b.read_destination_pos ≡ 0
    → find_read_lock n j b ≡ ok (record b { receive_lock = true; read_destination = id })
unfolding find_read_lock
find_read_lock_lem zero j id b le lt h before p = absurd (omega arith)
find_read_lock_lem (suc n) j id b le lt h before p = elim (dec_lt j id) [
  | yes below ↦
      rw (before j below) (find_read_lock_lem n (j + 1) id b (omega arith) (omega arith) h before p)
  | no here ↦ let e : j ≡ id = omega arith in ground (arith, e)
]
