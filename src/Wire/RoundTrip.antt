-- ===== src/Wire/RoundTrip.antt =====
-- Three bytes through `write`, over the wire and through `read` and `read_flush`.
use software_on_silicon.Base.{
  ℕ, ◌+◌, ◌*◌, ◌/◌, ◌%◌, ◌^◌, ◌<◌, ◌≡◌, refl, arith, true, false, Array, update,
}
use software_on_silicon.Errors.{Outcome, ok}
use software_on_silicon.Wire.{Codec, write, read, read_flush, byte_of_bitset}
use software_on_silicon.Wire.Bits.{bit_xor_low, bit_xor_middle}

-- What the codec asks of the virtual `write_bits`: it keeps the six payload bits, and its two
-- signal bits do not depend on them.
pub record IsSignal (write_bits : ℕ → ℕ) (signal : ℕ) : Type 0 where
  pub keeps : (payload : ℕ) → payload < 64 → write_bits payload ≡ signal * 64 + payload

-- The codec after a byte has been assembled at place `n`.
abbrev pub took : Codec → ℕ → ℕ → Codec
took c n w = record c { write_assembly = update c.write_assembly n w; write_count = n + 1 }

-- The codec after a byte has been read, when the bits so far are `high`.
abbrev pub overlaid : Codec → ℕ → ℕ → Codec
overlaid c count bits = record c { read_assembly = bits; read_count = count }

-- One call of `write` at each value of `write_count`.
module _ (write_bits : ℕ → ℕ) (signal : ℕ) (bits : IsSignal write_bits signal) where
  pub write_at_zero :
      (c : Codec) (w : ℕ)
      → c.write_count ≡ 0
      → w < 256
      → write write_bits c w ≡ (signal * 64 + w / 4, took c 0 w)
  unfolding write
  write_at_zero c w e h = ground (arith, bits.keeps (w / 4))

  pub write_at_one :
      (c : Codec) (w : ℕ)
      → c.write_count ≡ 1
      → w < 256
      → write write_bits c w ≡ (signal * 64 + c.write_assembly 0 % 4 * 16 + w / 16, took c 1 w)
  unfolding write
  write_at_one c w e h =
      ground
        (arith, bits.keeps (w / 16), bit_xor_middle 4 2 signal (c.write_assembly 0 % 4) (w / 16))

  pub write_at_two :
      (c : Codec) (w : ℕ)
      → c.write_count ≡ 2
      → w < 256
      → write write_bits c w ≡ (signal * 64 + c.write_assembly 1 % 16 * 4 + w / 64, took c 2 w)
  unfolding write
  write_at_two c w e h =
      ground
        (arith, bits.keeps (w / 64), bit_xor_middle 2 4 signal (c.write_assembly 1 % 16) (w / 64))

  pub write_at_three :
      (c : Codec) (w : ℕ)
      → c.write_count ≡ 3
      → write write_bits c w ≡ (signal * 64 + c.write_assembly 2 % 64, record c { write_count = 0 })
  unfolding write
  write_at_three c w e =
      ground (arith, bits.keeps 0, bit_xor_low 6 signal (c.write_assembly 2 % 64))

-- One call of `read` at each value of `read_count`; `high` is what has been received.
module _ (c : Codec) (high r : ℕ) where
  pub read_at_zero :
      c.read_count ≡ 0 → c.read_assembly ≡ 0 → read c r ≡ (true, overlaid c 1 (r % 64 * 2 ^ 18))
  unfolding read
  read_at_zero e a = ground (arith, bit_xor_low 24 0 (r % 64 * 2 ^ 18))

  pub read_at_one :
      c.read_count ≡ 1
      → c.read_assembly ≡ high * 2 ^ 18
      → read c r ≡ (true, overlaid c 2 ((high * 64 + r % 64) * 2 ^ 12))
  unfolding read
  read_at_one e a = ground (arith, bit_xor_low 18 high (r % 64 * 2 ^ 12))

  pub read_at_two :
      c.read_count ≡ 2
      → c.read_assembly ≡ high * 2 ^ 12
      → read c r ≡ (true, overlaid c 3 ((high * 64 + r % 64) * 2 ^ 6))
  unfolding read
  read_at_two e a = ground (arith, bit_xor_low 12 high (r % 64 * 2 ^ 6))

  pub read_at_three :
      c.read_count ≡ 3
      → c.read_assembly ≡ high * 2 ^ 6
      → read c r ≡ (false, overlaid c 0 (high * 64 + r % 64))
  unfolding read
  read_at_three e a = ground (arith, bit_xor_low 6 high (r % 64))

-- A full assembly is flushed as its three bytes, the first one highest.
pub read_flush_lem :
    (c : Codec) (b0 b1 b2 : ℕ)
    → b0 < 256
    → b1 < 256
    → b2 < 256
    → c.read_assembly ≡ (b0 * 256 + b1) * 256 + b2
    → (bytes : Array ℕ) × (read_flush c ≡ ok (bytes, record c { read_assembly = 0 }))
      × (bytes 0 ≡ b0)
      × (bytes 1 ≡ b1)
      × (bytes 2 ≡ b2)
unfolding read_flush
read_flush_lem c b0 b1 b2 h0 h1 h2 e =
    (byte_of_bitset c.read_assembly, ground arith, omega arith, omega arith, omega arith)

-- The four calls of `write` for three bytes; what is handed to the last of them is not looked at.
-- Each call has its own `write_bits`, since the signals may change between the bytes.
pub record Sent : Type 0 where
  pub r0 : ℕ
  pub r1 : ℕ
  pub r2 : ℕ
  pub r3 : ℕ
  pub after : Codec

pub send_three : (f0 f1 f2 f3 : ℕ → ℕ) → Codec → (b0 b1 b2 b3 : ℕ) → Sent
send_three f0 f1 f2 f3 c b0 b1 b2 b3 =
    let (r0, c0) = write f0 c b0 in
    let (r1, c1) = write f1 c0 b1 in
    let (r2, c2) = write f2 c1 b2 in
    let (r3, c3) = write f3 c2 b3 in record { r0 = r0; r1 = r1; r2 = r2; r3 = r3; after = c3 }

-- The four calls of `read`, and the flush that follows the last.
pub receive_three : Codec → (r0 r1 r2 r3 : ℕ) → Outcome (Array ℕ × Codec)
receive_three c r0 r1 r2 r3 =
    let (m0, c0) = read c r0 in
    let (m1, c1) = read c0 r1 in
    let (m2, c2) = read c1 r2 in let (m3, c3) = read c2 r3 in read_flush c3

pub send_three_lem :
    (f0 f1 f2 f3 : ℕ → ℕ) (s0 s1 s2 s3 : ℕ) (c : Codec) (b0 b1 b2 b3 : ℕ)
    → IsSignal f0 s0
    → IsSignal f1 s1
    → IsSignal f2 s2
    → IsSignal f3 s3
    → c.write_count ≡ 0
    → b0 < 256
    → b1 < 256
    → b2 < 256
    → let sent = send_three f0 f1 f2 f3 c b0 b1 b2 b3 in
      (sent.r0 ≡ s0 * 64 + b0 / 4)
      × (sent.r1 ≡ s1 * 64 + b0 % 4 * 16 + b1 / 16)
      × (sent.r2 ≡ s2 * 64 + b1 % 16 * 4 + b2 / 64)
      × (sent.r3 ≡ s3 * 64 + b2 % 64)
      × (sent.after.write_count ≡ 0)
unfolding send_three
send_three_lem f0 f1 f2 f3 s0 s1 s2 s3 c b0 b1 b2 b3 i0 i1 i2 i3 e h0 h1 h2 =
    rw (write_at_zero f0 s0 i0 c b0 e h0) (
      rw (write_at_one f1 s1 i1 (took c 0 b0) b1 refl h1) (
        rw (write_at_two f2 s2 i2 (took (took c 0 b0) 1 b1) b2 refl h2) (
          rw (write_at_three f3 s3 i3 (took (took (took c 0 b0) 1 b1) 2 b2) b3 refl)
            (refl, refl, refl, refl, refl))))

-- Four bytes on the wire whose payload bits are those of three bytes give back these bytes.
pub receive_three_lem :
    (d : Codec) (r0 r1 r2 r3 b0 b1 b2 : ℕ)
    → d.read_count ≡ 0
    → d.read_assembly ≡ 0
    → b0 < 256
    → b1 < 256
    → b2 < 256
    → ((r0 % 64 * 64 + r1 % 64) * 64 + r2 % 64) * 64 + r3 % 64 ≡ (b0 * 256 + b1) * 256 + b2
    → (bytes : Array ℕ) × (receive_three d r0 r1 r2 r3 ≡ ok (bytes, d))
      × (bytes 0 ≡ b0)
      × (bytes 1 ≡ b1)
      × (bytes 2 ≡ b2)
unfolding receive_three
receive_three_lem d r0 r1 r2 r3 b0 b1 b2 ed ea h0 h1 h2 e =
    let d0 = overlaid d 1 (r0 % 64 * 2 ^ 18) in
    let d1 = overlaid d 2 ((r0 % 64 * 64 + r1 % 64) * 2 ^ 12) in
    let d2 = overlaid d 3 (((r0 % 64 * 64 + r1 % 64) * 64 + r2 % 64) * 2 ^ 6) in
    let d3 = overlaid d 0 (((r0 % 64 * 64 + r1 % 64) * 64 + r2 % 64) * 64 + r3 % 64) in
    let (bytes, flushed, e0, e1, e2) = read_flush_lem d3 b0 b1 b2 h0 h1 h2 e in
    (
      bytes,
      rw (read_at_zero d 0 r0 ed ea) (
          rw (read_at_one d0 (r0 % 64) r1 refl refl) (
            rw (read_at_two d1 (r0 % 64 * 64 + r1 % 64) r2 refl refl) (
              rw (read_at_three d2 ((r0 % 64 * 64 + r1 % 64) * 64 + r2 % 64) r3 refl refl)
                (rw flushed (ground arith))))),
      e0,
      e1,
      e2,
    )

-- Three bytes go through the wire unchanged: from a codec that stands between two groups the four
-- bytes that `write` gives out, read by a codec that stands between two groups, flush to the same
-- three bytes in order, whatever the signals that `write_bits` adds to each byte and whatever the
-- padding that the fourth call is handed; each of the four bytes has its signals in the two high
-- bits, and both codecs stand between two groups again.
pub receive_three-send_three :
    (f0 f1 f2 f3 : ℕ → ℕ) (s0 s1 s2 s3 : ℕ) (c d : Codec) (b0 b1 b2 b3 : ℕ)
    → IsSignal f0 s0
    → IsSignal f1 s1
    → IsSignal f2 s2
    → IsSignal f3 s3
    → c.write_count ≡ 0
    → d.read_count ≡ 0
    → d.read_assembly ≡ 0
    → b0 < 256
    → b1 < 256
    → b2 < 256
    → let sent = send_three f0 f1 f2 f3 c b0 b1 b2 b3 in
      (bytes : Array ℕ) × (receive_three d sent.r0 sent.r1 sent.r2 sent.r3 ≡ ok (bytes, d))
      × (bytes 0 ≡ b0)
      × (bytes 1 ≡ b1)
      × (bytes 2 ≡ b2)
      × (sent.r0 / 64 ≡ s0)
      × (sent.r1 / 64 ≡ s1)
      × (sent.r2 / 64 ≡ s2)
      × (sent.r3 / 64 ≡ s3)
      × (sent.after.write_count ≡ 0)
receive_three-send_three f0 f1 f2 f3 s0 s1 s2 s3 c d b0 b1 b2 b3 i0 i1 i2 i3 ec ed ea h0 h1 h2 =
    let (e0, e1, e2, e3, e4) =
      send_three_lem f0 f1 f2 f3 s0 s1 s2 s3 c b0 b1 b2 b3 i0 i1 i2 i3 ec h0 h1 h2 in
    let sent = send_three f0 f1 f2 f3 c b0 b1 b2 b3 in
    let (bytes, same, p0, p1, p2) =
      receive_three_lem d sent.r0 sent.r1 sent.r2 sent.r3 b0 b1 b2 ed ea h0 h1 h2 (omega arith) in
    (bytes, same, p0, p1, p2, omega arith, omega arith, omega arith, omega arith, e4)
