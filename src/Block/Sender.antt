-- ===== src/Block/Sender.antt =====
-- The sending side of an object transfer: one call of `write_object` at each place of a group.
use software_on_silicon.Base.{
  ℕ, ◌+◌, ◌*◌, ◌/◌, ◌%◌, ◌^◌, ◌<◌, ◌≤◌, ◌≡◌, refl, ap, ◌∙◌, arith, true, false, get_or,
}
use software_on_silicon.Errors.{ok}
use software_on_silicon.Sync.{lock_descriptors, unlock_descriptors, emit_sent}
use software_on_silicon.Com.Offsets.{IsValid, write_byte_lem}
use software_on_silicon.Wire
use software_on_silicon.Wire.{Codec}
use software_on_silicon.Wire.RoundTrip.{
  IsSignal, took, write_at_zero, write_at_one, write_at_two, write_at_three,
}
use software_on_silicon.Block.{Block, descriptor, memory, finish_write, write_object}

-- A sender that is to write byte `pos` of object `id`, `phase` bytes into a group.
pub record Sending (b : Block) (id obj size pos phase : ℕ) : Type 0 where
  pub locked : b.send_lock ≡ true
  pub origin : b.write_origin ≡ id
  pub address : (descriptor b id).obj ≡ obj
  pub extent : (descriptor b id).obj_size ≡ size
  pub small : size < 2 ^ 64
  pub position : b.write_origin_pos ≡ pos
  pub counted : b.write3plus1 ≡ phase
  pub coded : b.codec.write_count ≡ phase
  pub port : IsValid b.uart
  pub unlocked : b.sync.bus.descriptors_updated ≡ false

-- The object's last group has been written.
pub record Sent (b b' : Block) (id : ℕ) : Type 0 where
  pub released : b'.send_lock ≡ false
  pub cleared : b'.transfer id ≡ false
  pub others : (j : ℕ) → (id ≡ j → ⊥) → b'.transfer j ≡ b.transfer j
  pub reported : (b'.sync.bus.switches id).write_ack ≡ false
  pub quiet : (b'.sync.bus.switches id).write_op.notify ≡ true
  pub rewound : b'.write_origin_pos ≡ 0
  pub aligned : b'.write3plus1 ≡ 0
  pub coded : b'.codec.write_count ≡ 0
  pub port : IsValid b'.uart
  pub unlocked : b'.sync.bus.descriptors_updated ≡ false
  pub kept : memory b' ≡ memory b

-- What the wire shows after a call: the byte at the place where the port was to write.
abbrev pub wire_byte : Block → Block → ℕ
wire_byte before after = get_or after.uart.out_buffer before.uart.write_offset 0

module _ (write_bits : ℕ → ℕ) (signal : ℕ) (bits : IsSignal write_bits signal) where
  -- A data call, from what the codec does with the byte.
  data_step :
      (b : Block) (id obj size pos phase w out : ℕ)
      → Sending b id obj size pos phase
      → phase < 3
      → pos < size
      → memory b (obj + pos) ≡ w
      → Wire.write write_bits b.codec w ≡ (out, took b.codec phase w)
      → (b' : Block) × (write_object write_bits b ≡ ok (true, b'))
        × Sending b' id obj size (pos + 1) (phase + 1)
        × (memory b' ≡ memory b)
        × (wire_byte b b' ≡ out)
        × (b'.codec ≡ took b.codec phase w)
        × (b'.transfer ≡ b.transfer)
  unfolding write_object lock_descriptors unlock_descriptors
  data_step b id obj size pos phase w out s short lt held e' =
      let (uart, e, v, at, next, same, sig, rest) = write_byte_lem b.uart out s.port in
      (
        record b {
          uart = uart;
          codec = took b.codec phase w;
          write_origin_pos = pos + 1;
          write3plus1 = phase + 1;
        },
        ground (arith, e, e'),
        ground arith,
        refl,
        at,
        refl,
        refl,
      )

  -- The padding call in the middle of an object.
  pub padding_step :
      (b : Block) (id obj size pos : ℕ)
      → Sending b id obj size pos 3
      → pos < size
      → (b' : Block) × (write_object write_bits b ≡ ok (true, b'))
        × Sending b' id obj size pos 0
        × (memory b' ≡ memory b)
        × (wire_byte b b' ≡ signal * 64 + b.codec.write_assembly 2 % 64)
        × (b'.transfer ≡ b.transfer)
  unfolding write_object
  padding_step b id obj size pos s lt =
      let out = signal * 64 + b.codec.write_assembly 2 % 64 in
      let (uart, e, v, at, next, same, sig, rest) = write_byte_lem b.uart out s.port in
      let e' = write_at_three write_bits signal bits b.codec 63 s.coded in
      (
        record b { uart = uart; codec = record (b.codec) { write_count = 0 }; write3plus1 = 0 },
        ground (arith, e, e'),
        ground arith,
        refl,
        at,
        refl,
      )

  -- The padding call after the object's last byte.
  pub last_step :
      (b : Block) (id obj size pos : ℕ)
      → Sending b id obj size pos 3
      → pos ≡ size
      → (b' : Block) × (write_object write_bits b ≡ ok (true, b'))
        × Sent b b' id
        × (wire_byte b b' ≡ signal * 64 + b.codec.write_assembly 2 % 64)
  unfolding write_object emit_sent
  last_step b id obj size pos s done =
      let out = signal * 64 + b.codec.write_assembly 2 % 64 in
      let (uart, e, v, at, next, same, sig, rest) = write_byte_lem b.uart out s.port in
      let e' = write_at_three write_bits signal bits b.codec 63 s.coded in
      (
        record (finish_write b) {
          uart = uart;
          codec = record (b.codec) { write_count = 0 };
          write3plus1 = 0;
        },
        ground (arith, e, e'),
        record {
          released = refl;
          cleared = ground arith;
          others = λ j ne. ground arith;
          reported = ground arith;
          quiet = ground arith;
          rewound = refl;
          aligned = refl;
          coded = refl;
          port = v;
          unlocked = s.unlocked;
          kept = refl;
        },
        at,
      )

-- The three data calls of a group.
pub record Group (f0 f1 f2 : ℕ → ℕ) (b : Block) (id obj size pos : ℕ) (s0 s1 s2 : ℕ) : Type 0 where
  pub b1 : Block
  pub b2 : Block
  pub b3 : Block
  pub first : write_object f0 b ≡ ok (true, b1)
  pub second : write_object f1 b1 ≡ ok (true, b2)
  pub third : write_object f2 b2 ≡ ok (true, b3)
  pub sending : Sending b3 id obj size (pos + 3) 3
  pub kept : memory b3 ≡ memory b
  pub transfer_kept : b3.transfer ≡ b.transfer
  pub byte0 : wire_byte b b1 ≡ s0 * 64 + memory b (obj + pos) / 4
  pub byte1 :
      wire_byte b1 b2 ≡ s1 * 64 + memory b (obj + pos) % 4 * 16 + memory b (obj + (pos + 1)) / 16
  pub byte2 :
      wire_byte b2 b3
      ≡ s2 * 64 + memory b (obj + (pos + 1)) % 16 * 4 + memory b (obj + (pos + 2)) / 64
  pub left : b3.codec.write_assembly 2 ≡ memory b (obj + (pos + 2))

module _ (f0 f1 f2 : ℕ → ℕ) (s0 s1 s2 : ℕ) (i0 : IsSignal f0 s0) (i1 : IsSignal f1 s1)
    (i2 : IsSignal f2 s2) where
  pub write_three :
      (b : Block) (id obj size pos : ℕ)
      → Sending b id obj size pos 0
      → pos + 3 ≤ size
      → memory b (obj + pos) < 256
      → memory b (obj + (pos + 1)) < 256
      → memory b (obj + (pos + 2)) < 256
      → Group f0 f1 f2 b id obj size pos s0 s1 s2
  write_three b id obj size pos s room h0 h1 h2 =
      let m0 = memory b (obj + pos) in
      let m1 = memory b (obj + (pos + 1)) in
      let m2 = memory b (obj + (pos + 2)) in
      let (b1, e1, n1, k1, w1, c1, t1) =
        data_step f0 s0 i0 b id obj size pos 0 m0 (s0 * 64 + m0 / 4) s (omega arith) (omega arith)
          refl (write_at_zero f0 s0 i0 b.codec m0 s.coded h0) in
      let kept1 : memory b1 (obj + (pos + 1)) ≡ m1 = ap (λ (m : ℕ → ℕ). m (obj + (pos + 1))) k1 in
      let held1 : b1.codec.write_assembly 0 ≡ m0 = ap (λ (c : Codec). c.write_assembly 0) c1 in
      let (b2, e2, n2, k2, w2, c2, t2) =
        data_step f1 s1 i1 b1 id obj size (pos + 1) 1 m1
          (s1 * 64 + b1.codec.write_assembly 0 % 4 * 16 + m1 / 16) n1 (omega arith) (omega arith)
          kept1 (write_at_one f1 s1 i1 b1.codec m1 n1.coded h1) in
      let same : pos + 1 + 1 ≡ pos + 2 = omega arith in
      let kept2 : memory b2 (obj + (pos + 1 + 1)) ≡ m2 =
        rw same (ap (λ (m : ℕ → ℕ). m (obj + (pos + 2))) (k2 ∙ k1)) in
      let held2 : b2.codec.write_assembly 1 ≡ m1 = ap (λ (c : Codec). c.write_assembly 1) c2 in
      let (b3, e3, n3, k3, w3, c3, t3) =
        data_step f2 s2 i2 b2 id obj size (pos + 1 + 1) 2 m2
          (s2 * 64 + b2.codec.write_assembly 1 % 16 * 4 + m2 / 64) n2 (omega arith) (omega arith)
          kept2 (write_at_two f2 s2 i2 b2.codec m2 n2.coded h2) in
      let sum : pos + 1 + 1 + 1 ≡ pos + 3 = omega arith in
      record {
        b1 = b1;
        b2 = b2;
        b3 = b3;
        first = e1;
        second = e2;
        third = e3;
        sending = rw sum at n3;
        kept = k3 ∙ k2 ∙ k1;
        transfer_kept = t3 ∙ t2 ∙ t1;
        byte0 = w1;
        byte1 = omega arith;
        byte2 = omega arith;
        left = ap (λ (c : Codec). c.write_assembly 2) c3;
      }
