-- ===== src/Block/WriteSound.antt =====
-- `write_object` keeps the invariant of the block layer.
use software_on_silicon.Base.{
  ℕ, ◌+◌, ◌%◌, ◌<◌, ◌≤◌, ◌≡◌, ◌∙◌, arith, true, Bool-cases, inl, inr, ==_iff,
}
use native.Mathlib.Decide.{dec_lt, ℕ_discrete as dec_eq}
use software_on_silicon.Errors.{ok}
use software_on_silicon.Com.{Com}
use software_on_silicon.Com.Offsets.{IsValid, write_byte_lem}
use software_on_silicon.Sync.{lock_descriptors, unlock_descriptors, emit_sent}
use software_on_silicon.Wire
use software_on_silicon.Block.{
  Block, descriptor, memory, write, write_data, write_padding, finish_write, write_object,
}
use software_on_silicon.Block.Sound.{IsSound}

-- Where the codec's counters go, whatever the signals.
codec_after_write :
    (write_bits : ℕ → ℕ) (c : Wire.Codec) (w : ℕ)
    → c.write_count ≤ 3
    → ((Wire.write write_bits c w).1.write_count ≡ (c.write_count + 1) % 4)
      × ((Wire.write write_bits c w).1.read_count ≡ c.read_count)
      × ((Wire.write write_bits c w).1.read_assembly ≡ c.read_assembly)
unfolding Wire.write
codec_after_write write_bits c w h = (ground arith, ground arith, ground arith)

-- `write` returns, and touches the codec's writing half and the port only.
pub write_lem :
    (write_bits : ℕ → ℕ) (b : Block) (w : ℕ)
    → IsValid b.uart
    → b.codec.write_count ≤ 3
    → (codec : Wire.Codec) × (uart : Com) × (write write_bits b w
        ≡ ok (record b { codec = codec; uart = uart }))
      × IsValid uart
      × (codec.write_count ≡ (b.codec.write_count + 1) % 4)
      × (codec.read_count ≡ b.codec.read_count)
      × (codec.read_assembly ≡ b.codec.read_assembly)
unfolding write
write_lem write_bits b w v h =
    let (uart, e, valid, at, next, same, sig, rest) =
      write_byte_lem b.uart (Wire.write write_bits b.codec w).0 v in
    let (e0, e1, e2) = codec_after_write write_bits b.codec w h in
    ((Wire.write write_bits b.codec w).1, uart, rw e, valid, e0, e1, e2)

write_data-IsSound :
    (write_bits : ℕ → ℕ) (b : Block)
    → IsSound b
    → b.send_lock ≡ true
    → b.write3plus1 < 3
    → (b' : Block) × (write_data write_bits b ≡ ok b') × IsSound b'
unfolding write_data lock_descriptors unlock_descriptors
write_data-IsSound write_bits b v locked early =
    let moved = record b {
      write_origin_pos = b.write_origin_pos + 1;
      write3plus1 = b.write3plus1 + 1;
    } in
    let w = memory b ((descriptor b b.write_origin).obj + b.write_origin_pos) in
    let (known, flying) = v.origin locked in
    let (positive, whole, small) = v.own.sizes b.write_origin known in
    let room = v.write_data_place locked early in
    let (codec, uart, e, valid, e0, e1, e2) =
      write_lem write_bits moved w v.port (omega (arith, v.write_coded)) in
    let place = v.write_place locked in
    (
      record moved { codec = codec; uart = uart },
      ground (arith, e, v.unlocked),
      record {
        port = valid;
        unlocked = v.unlocked;
        own = v.own;
        shared = v.shared;
        exclusive = v.exclusive;
        origin = v.origin;
        destination = v.destination;
        write_idle = λ h. cc;
        write_place = λ h. omega arith;
        write_data_place = λ h lt. omega arith;
        write_padding_place = λ h. omega arith;
        write_phase = omega arith;
        write_coded = omega (arith, v.write_coded);
        read_idle = v.read_idle;
        read_place = v.read_place;
        read_room = v.read_room;
        read_phase = v.read_phase;
        read_coded = e1 ∙ v.read_coded;
        read_fits = omega (arith, v.read_fits);
      },
    )

-- The block after a padding call, with the locks as `finish_write` leaves them or not.
write_padding-IsSound :
    (write_bits : ℕ → ℕ) (b : Block)
    → IsSound b
    → b.send_lock ≡ true
    → b.write3plus1 ≡ 3
    → (b' : Block) × (write_padding write_bits b ≡ ok b') × IsSound b'
unfolding write_padding emit_sent
write_padding-IsSound write_bits b v locked late =
    let size = (descriptor b b.write_origin).obj_size in
    let place = v.write_place locked in
    let fits = v.write_padding_place locked in
    let (known, flying) = v.origin locked in
    let (positive, whole, small) = v.own.sizes b.write_origin known in
    elim (dec_eq b.write_origin_pos size) [
      | yes done ↦
          let (codec, uart, e, valid, e0, e1, e2) =
            write_lem write_bits (record (finish_write b) { write3plus1 = 0 }) 63 v.port
              (omega (arith, v.write_coded, late)) in
          (
            record (finish_write b) { write3plus1 = 0; codec = codec; uart = uart },
            rw ((==_iff b.write_origin_pos size).1 done) e,
            record {
              port = valid;
              unlocked = v.unlocked;
              own = v.own;
              shared = v.shared;
              exclusive = λ j h. ground (arith, v.exclusive j h);
              origin = λ h. cc;
              destination = v.destination;
              write_idle = λ h. omega arith;
              write_place = λ h. cc;
              write_data_place = λ h lt. cc;
              write_padding_place = λ h. cc;
              write_phase = omega arith;
              write_coded = omega (arith, v.write_coded, late);
              read_idle = v.read_idle;
              read_place = v.read_place;
              read_room = v.read_room;
              read_phase = v.read_phase;
              read_coded = e1 ∙ v.read_coded;
              read_fits = omega (arith, v.read_fits);
            },
          )
      | no more ↦
          let (codec, uart, e, valid, e0, e1, e2) =
            write_lem write_bits (record b { write3plus1 = 0 }) 63 v.port
              (omega (arith, v.write_coded, late)) in
          (
            record b { write3plus1 = 0; codec = codec; uart = uart },
            ground (arith, e),
            record {
              port = valid;
              unlocked = v.unlocked;
              own = v.own;
              shared = v.shared;
              exclusive = v.exclusive;
              origin = v.origin;
              destination = v.destination;
              write_idle = λ h. cc;
              write_place = λ h. omega arith;
              write_data_place = λ h lt. omega arith;
              write_padding_place = λ h. fits;
              write_phase = omega arith;
              write_coded = omega (arith, v.write_coded, late);
              read_idle = v.read_idle;
              read_place = v.read_place;
              read_room = v.read_room;
              read_phase = v.read_phase;
              read_coded = e1 ∙ v.read_coded;
              read_fits = omega (arith, v.read_fits);
            },
          )
    ]

-- Writing never fails on a sound block: `write_object` returns whether there is an object to
-- send, and leaves the block sound.
pub write_object-IsSound :
    (write_bits : ℕ → ℕ) (b : Block)
    → IsSound b
    → (b' : Block) × (write_object write_bits b ≡ ok (b.send_lock, b')) × IsSound b'
unfolding write_object
write_object-IsSound write_bits b v = elim (Bool-cases b.send_lock) [
  | inl locked ↦ elim (dec_lt b.write3plus1 3) [
    | yes early ↦
        let (b', e, s) = write_data-IsSound write_bits b v locked early in
        (b', ground (arith, e), s)
    | no late ↦
        let (b', e, s) =
          write_padding-IsSound write_bits b v locked (omega (arith, v.write_phase)) in
        (b', ground (arith, e), s)
  ]
  | inr free ↦ (b, ground arith, v)
]
