-- ===== src/Wire.antt =====
-- The byte codec of `BlockWiseTransfer` (include/software-on-silicon/ByteWiseTransfer.hpp), with
-- `bitsetToBytearray` of serial_helpers.hpp: three bytes travel as four, six payload bits in each,
-- and the two high bits of each byte on the wire are left to the handshake signals.
pub mod Bits
pub mod RoundTrip
pub mod Numbers
use software_on_silicon.Base.{
  ℕ, ◌+◌, ◌-◌, ◌*◌, ◌/◌, ◌%◌, ◌^◌, bit_xor, Bool, true, false, ◌==◌, ltb, if◌then◌else◌, Array,
  update,
}
use software_on_silicon.Errors.{Outcome, ok, logic_error, ◌>>=◌}
use software_on_silicon.Errors.Code.{ErrorCode}

-- `std::bitset<w>`, as the number below `2 ^ w` that `to_ulong` gives.
abbrev pub shift_left : ℕ → ℕ → ℕ → ℕ
shift_left width x n = x * 2 ^ n % 2 ^ width

abbrev pub shift_right : ℕ → ℕ → ℕ
shift_right x n = x / 2 ^ n

abbrev pub bit_of : Bool → ℕ
bit_of true = 1
bit_of false = 0

-- `out.set(7, updated)` and `out.set(6, acknowledge)` on a `bitset<8>`.
abbrev pub set_bit7 : ℕ → Bool → ℕ
set_bit7 x b = bit_of b * 128 + x % 128

abbrev pub set_bit6 : ℕ → Bool → ℕ
set_bit6 x b = x / 128 * 128 + bit_of b * 64 + x % 64

-- The codec's members: `writeAssembly` has three bytes, `readAssembly` 24 bits.
pub record Codec : Type 0 where
  pub write_count : ℕ
  pub write_assembly : Array ℕ
  pub read_count : ℕ
  pub read_assembly : ℕ

unfoldable pub write_assemble : Array ℕ → ℕ → ℕ → ℕ × Array ℕ
write_assemble assembly count w = (shift_right w ((count + 1) * 2), update assembly count w)

unfoldable pub write_recover : Array ℕ → ℕ → ℕ → ℕ
write_recover assembly count out =
    bit_xor out (shift_right (shift_left 8 (assembly (count - 1)) ((4 - count) * 2)) (1 * 2))

-- `write` up to its call of `write_byte`: the byte that goes out. `write_bits` is the virtual
-- function that stores the handshake signals.
module _ (write_bits : ℕ → ℕ) where
  unfoldable pub write_first : Codec → ℕ → ℕ × Codec
  unfolding write_assemble
  write_first c w =
      let (out, assembly) = write_assemble c.write_assembly c.write_count w in
      (write_bits out, record c { write_assembly = assembly; write_count = c.write_count + 1 })

  unfoldable pub write_middle : Codec → ℕ → ℕ × Codec
  unfolding write_assemble write_recover
  write_middle c w =
      let (out, assembly) = write_assemble c.write_assembly c.write_count w in
      (
        write_recover assembly c.write_count (write_bits out),
        record c { write_assembly = assembly; write_count = c.write_count + 1 },
      )

  unfoldable pub write_last : Codec → ℕ × Codec
  unfolding write_recover
  write_last c =
      (write_recover c.write_assembly c.write_count (write_bits 0), record c { write_count = 0 })

  -- The `switch` has no default: with another count nothing is assembled, and zero goes out.
  unfoldable pub write : Codec → ℕ → ℕ × Codec
  unfolding write_first write_middle write_last
  write c w =
      if c.write_count == 0
      then write_first c w
      else if c.write_count == 1
      then write_middle c w
      else if c.write_count == 2
      then write_middle c w
      else if c.write_count == 3
      then write_last c
      else (0, c)

unfoldable pub read_shift : ℕ → ℕ → ℕ → ℕ
read_shift assembly count temp =
    bit_xor assembly (shift_right (shift_left 24 temp ((4 - 0) * 4 + 2)) (count * 3 * 2))

unfoldable pub read_counted : ℕ → Bool × ℕ
read_counted count =
    if ltb count 3 then (true, count + 1) else if count == 3 then (false, 0) else (false, count)

unfoldable pub read : Codec → ℕ → Bool × Codec
unfolding read_shift read_counted
read c r =
    let (more, count) = read_counted c.read_count in
    (
      more,
      record c { read_assembly = read_shift c.read_assembly c.read_count r; read_count = count },
    )

-- `maxUnsignedInt`: the sum of `0xFF * 256 ^ i` over the bytes (exact in `double` for three bytes).
unfoldable pub max_unsigned_int : ℕ → ℕ
max_unsigned_int ℕ.zero = 0
max_unsigned_int (ℕ.suc bytes) = max_unsigned_int bytes + 0xFF * 256 ^ bytes

-- Byte `i` of `bitsetToBytearray` with `Bytes = 3` and `Bits = 24`.
unfoldable pub byte_of_bitset : ℕ → ℕ → ℕ
byte_of_bitset source i = shift_right (shift_left 24 source ((3 - (3 - i)) * 8)) ((3 - 1) * 8) % 256

unfoldable pub bitset_to_bytearray : ℕ → Outcome (Array ℕ)
unfolding max_unsigned_int byte_of_bitset
bitset_to_bytearray source =
    if ltb (max_unsigned_int 3) source
    then logic_error ErrorCode.bitset_does_not_fit_into_chararray
    else ok (byte_of_bitset source)

unfoldable pub read_flush : Codec → Outcome (Array ℕ × Codec)
unfolding bitset_to_bytearray
read_flush c = do
  result ← bitset_to_bytearray c.read_assembly
  ok (result, record c { read_assembly = 0 })
