-- ===== src/Wire/Numbers.antt =====
-- The conversions of include/software-on-silicon/serial_helpers.hpp from bytes to numbers.
use software_on_silicon.Base.{
  ℕ, zero, suc, ◌+◌, ◌-◌, ◌*◌, ◌%◌, ◌^◌, ◌<◌, bit_xor, ◌≡◌, refl, ◌∙◌, arith, ltb, if◌then◌else◌,
  Array,
}
use software_on_silicon.Errors.{Outcome, ok, logic_error}
use software_on_silicon.Errors.Code.{ErrorCode}
use software_on_silicon.Wire.{max_unsigned_int, byte_of_bitset, bitset_to_bytearray}
use software_on_silicon.Wire.Bits.{bit_xor_low}

-- `bytearrayToUnsignedNumber`, which is exact in `double` for up to six bytes: the first byte counts
-- least.
unfoldable pub bytearray_to_unsigned_number : ℕ → Array ℕ → ℕ
bytearray_to_unsigned_number zero source = 0
bytearray_to_unsigned_number (suc i) source =
    bytearray_to_unsigned_number i source + source i * 256 ^ i

-- The loop of `bytearrayToBitset`: each byte as a bitset, laid over the result with `^`; the first
-- byte counts most.
unfoldable pub xor_digits : ℕ → ℕ → Array ℕ → ℕ → ℕ
xor_digits bytes bits source zero = 0
xor_digits bytes bits source (suc i) =
    bit_xor (xor_digits bytes bits source i) (source i * 256 ^ (bytes - 1 - i) % 2 ^ bits)

-- `bytearrayToBitset`
unfoldable pub bytearray_to_bitset : ℕ → ℕ → Array ℕ → Outcome ℕ
unfolding max_unsigned_int xor_digits
bytearray_to_bitset bytes bits source =
    if ltb (2 ^ bits - 1) (max_unsigned_int bytes)
    then logic_error ErrorCode.numeric_value_of_bitset_does_not_fit_into_chararray
    else ok (xor_digits bytes bits source bytes)

-- Where the bits do not overlap, `^` adds.
xor_sum : (k high x y : ℕ) → x ≡ high * 2 ^ k → y < 2 ^ k → bit_xor x y ≡ x + y
xor_sum k high x y e low = rw e (bit_xor_low k high y low)

xor_digits_lem :
    (a : Array ℕ) → ((i : ℕ) → a i < 256) → xor_digits 3 24 a 3 ≡ a 0 * 65536 + a 1 * 256 + a 2
unfolding xor_digits
xor_digits_lem a h =
    let b0 = h 0 in
    let b1 = h 1 in
    let b2 = h 2 in
    let e0 : a 0 * 65536 % 2 ^ 24 ≡ a 0 * 65536 = omega arith in
    let e1 : a 1 * 256 % 2 ^ 24 ≡ a 1 * 256 = omega arith in
    let e2 : a 2 * 1 % 2 ^ 24 ≡ a 2 = omega arith in
    rw (e0, e1, e2, xor_sum 24 0 0 (a 0 * 65536) (omega arith) (omega arith))
      (rw (xor_sum 16 (a 0) (0 + a 0 * 65536) (a 1 * 256) (omega arith) (omega arith)) (
        xor_sum 8 (a 0 * 256 + a 1) (0 + a 0 * 65536 + a 1 * 256) (a 2) (omega arith) (omega arith)
        ∙ omega arith))

byte_of_bitset_lem :
    (x : ℕ) (a : Array ℕ)
    → ((i : ℕ) → a i < 256)
    → x ≡ a 0 * 65536 + a 1 * 256 + a 2
    → (i : ℕ) → i < 3
    → byte_of_bitset x i ≡ a i
unfolding byte_of_bitset
byte_of_bitset_lem x a h e zero low = let b1 = h 1 in let b2 = h 2 in let b0 = h 0 in omega arith
byte_of_bitset_lem x a h e (suc zero) low =
    let b1 = h 1 in let b2 = h 2 in let b0 = h 0 in omega arith
byte_of_bitset_lem x a h e (suc (suc zero)) low =
    let b1 = h 1 in let b2 = h 2 in let b0 = h 0 in omega arith
byte_of_bitset_lem x a h e (suc (suc (suc i))) low = absurd (omega arith)

-- Three bytes, put into a bitset of 24 bits and taken out again, are the same bytes: neither
-- conversion reports an error, the bitset has 24 bits, and its number is the one that the bytes
-- have in the opposite order, for which the first byte counts least.
pub bitset_to_bytearray-bytearray_to_bitset :
    (a : Array ℕ)
    → ((i : ℕ) → a i < 256)
    → (x : ℕ) × (bytearray_to_bitset 3 24 a ≡ ok x)
      × (x < 2 ^ 24)
      × (bitset_to_bytearray x ≡ ok (byte_of_bitset x))
      × ((i : ℕ) → i < 3 → byte_of_bitset x i ≡ a i)
      × (bytearray_to_unsigned_number 3 (λ i. a (2 - i)) ≡ x)
unfolding bytearray_to_bitset bitset_to_bytearray byte_of_bitset max_unsigned_int
    bytearray_to_unsigned_number
bitset_to_bytearray-bytearray_to_bitset a h =
    let e = xor_digits_lem a h in
    let b0 = h 0 in
    let b1 = h 1 in
    let b2 = h 2 in
    let low : xor_digits 3 24 a 3 < 2 ^ 24 = omega arith in
    (
      xor_digits 3 24 a 3,
      refl,
      low,
      ground (arith, low),
      byte_of_bitset_lem (xor_digits 3 24 a 3) a h e,
      omega arith,
    )
