-- ===== src/Block/StoreSound.antt =====
-- A byte that comes in keeps the invariant of the block layer.
use software_on_silicon.Base.{
  ℕ, ◌+◌, ◌*◌, ◌%◌, ◌^◌, ◌<◌, ◌≤◌, ◌≡◌, refl, ◌∙◌, arith, true, false, inl, inr, update,
}
use native.Mathlib.Decide.{dec_lt}
use native.Mathlib.Nat.{div-le_self}
use software_on_silicon.Errors.{ok}
use software_on_silicon.Sync.{lock_descriptors, unlock_descriptors, emit_received}
use software_on_silicon.Block.{Block, descriptor, memory, receive_byte, next_size}
use software_on_silicon.Wire.{Codec, read, read_flush, byte_of_bitset}
use software_on_silicon.Wire.Bits.{bit_xor-lt}
use software_on_silicon.Block.Receiver.{stored3}
use software_on_silicon.Block.Exchange.{Outside, stored3-Outside}
use software_on_silicon.Block.Sound.{IsSound}

-- Where the codec's counter goes, and that the assembly stays in its 24 bits.
codec_after_read :
    (c : Codec) (r : ℕ)
    → c.read_count ≤ 3
    → c.read_assembly < 2 ^ 24
    → ((read c r).1.read_count ≡ (c.read_count + 1) % 4)
      × ((read c r).1.read_assembly < 2 ^ 24)
      × ((read c r).1.write_count ≡ c.write_count)
unfolding read
codec_after_read c r h fits = (
  ground arith,
  bit_xor-lt 24 c.read_assembly _ fits
      (omega (arith, div-le_self (r * 2 ^ 18 % 2 ^ 24) (2 ^ (c.read_count * 3 * 2)))),
  ground arith,
)

-- The check of `bitsetToBytearray` never fails on 24 bits.
read_flush-ok :
    (c : Codec)
    → c.read_assembly < 2 ^ 24
    → read_flush c ≡ ok (byte_of_bitset c.read_assembly, record c { read_assembly = 0 })
unfolding read_flush
read_flush-ok c fits = ground arith

-- A byte within a group.
pub gather-IsSound :
    (b : Block) (r : ℕ)
    → IsSound b
    → b.receive_lock ≡ true
    → b.read4minus1 < 3
    → (b' : Block) × (receive_byte b r ≡ ok b')
      × IsSound b'
      × (memory b' ≡ memory b)
      × (b'.transfer ≡ b.transfer)
unfolding receive_byte
gather-IsSound b r v locked early =
    let (e0, e1, e2) =
      codec_after_read b.codec r (omega (arith, v.read_coded, v.read_phase)) v.read_fits in
    (
      record b { codec = (read b.codec r).1; read4minus1 = b.read4minus1 + 1 },
      ground arith,
      record {
        port = v.port;
        unlocked = v.unlocked;
        own = v.own;
        shared = v.shared;
        exclusive = v.exclusive;
        origin = v.origin;
        destination = v.destination;
        write_idle = v.write_idle;
        write_place = v.write_place;
        write_data_place = v.write_data_place;
        write_padding_place = v.write_padding_place;
        write_phase = v.write_phase;
        write_coded = e2 ∙ v.write_coded;
        read_idle = λ h. cc;
        read_place = v.read_place;
        read_room = v.read_room;
        read_phase = omega arith;
        read_coded = omega (arith, v.read_coded);
        read_fits = e1;
      },
      refl,
      refl,
    )

-- The byte that ends a group: three bytes are stored inside the object, and a complete object is
-- given free.
pub store-IsSound :
    (b : Block) (r : ℕ)
    → IsSound b
    → b.receive_lock ≡ true
    → b.read4minus1 ≡ 3
    → let place = descriptor b b.read_destination in
      (b' : Block) × (receive_byte b r ≡ ok b')
      × IsSound b'
      × ((a : ℕ) → Outside place.obj (place.obj + place.obj_size) a → memory b' a ≡ memory b a)
      × (b'.transfer ≡ b.transfer)
unfolding receive_byte lock_descriptors unlock_descriptors emit_received
store-IsSound b r v locked late =
    let place = descriptor b b.read_destination in
    let pos = b.read_destination_pos in
    let (e0, e1, e2) =
      codec_after_read b.codec r (omega (arith, v.read_coded, v.read_phase)) v.read_fits in
    let codec = (read b.codec r).1 in
    let flush = read_flush-ok codec e1 in
    let (known, taken) = v.destination locked in
    let (positive, whole, small) = v.own.sizes b.read_destination known in
    let room = v.read_room locked in
    let aligned = v.read_place in
    let bytes = byte_of_bitset codec.read_assembly in
    let m = stored3 (memory b) place.obj pos (bytes 0) (bytes 1) (bytes 2) in
    let y = record (b.sync) { bus = record (b.sync.bus) { memory = m } } in
    let outside : (a : ℕ) → Outside place.obj (place.obj + place.obj_size) a → m a ≡ memory b a =
      λ a out.
        stored3-Outside (memory b) place.obj pos (bytes 0) (bytes 1) (bytes 2) a
          (inside place.obj place.obj_size pos a (omega arith) out) in
    elim (dec_lt (pos + 3) place.obj_size) [
      | yes more ↦ (
        record b {
          codec = record codec { read_assembly = 0 };
          read4minus1 = 0;
          read_destination_pos = pos + 3;
          sync = y;
        },
        ground (arith, flush),
        record {
          port = v.port;
          unlocked = v.unlocked;
          own = v.own;
          shared = v.shared;
          exclusive = v.exclusive;
          origin = v.origin;
          destination = v.destination;
          write_idle = v.write_idle;
          write_place = v.write_place;
          write_data_place = v.write_data_place;
          write_padding_place = v.write_padding_place;
          write_phase = v.write_phase;
          write_coded = e2 ∙ v.write_coded;
          read_idle = λ h. cc;
          read_place = omega arith;
          read_room = λ h. more;
          read_phase = omega arith;
          read_coded = omega (arith, v.read_coded);
          read_fits = omega arith;
        },
        outside,
        refl,
      )
      | no last ↦ (
        record b {
          codec = record codec { read_assembly = 0 };
          read4minus1 = 0;
          read_destination_pos = 0;
          receive_lock = false;
          read_lock = update b.read_lock b.read_destination false;
          rx_counter =
              update b.rx_counter b.read_destination (next_size (b.rx_counter b.read_destination));
          sync = emit_received y b.read_destination;
        },
        ground (arith, flush),
        record {
          port = v.port;
          unlocked = v.unlocked;
          own = v.own;
          shared = v.shared;
          exclusive = λ j h. ground (arith, v.exclusive j);
          origin = v.origin;
          destination = λ h. cc;
          write_idle = v.write_idle;
          write_place = v.write_place;
          write_data_place = v.write_data_place;
          write_padding_place = v.write_padding_place;
          write_phase = v.write_phase;
          write_coded = e2 ∙ v.write_coded;
          read_idle = λ h. (refl, refl);
          read_place = omega arith;
          read_room = λ h. cc;
          read_phase = omega arith;
          read_coded = omega (arith, v.read_coded);
          read_fits = omega arith;
        },
        outside,
        refl,
      )
    ]
  where
    inside :
        (obj size pos a : ℕ)
        → pos + 3 ≤ size
        → Outside obj (obj + size) a
        → Outside (obj + pos) (obj + (pos + 3)) a
    inside obj size pos a fits (inl low) = inl (omega arith)
    inside obj size pos a fits (inr high) = inr (omega arith)
