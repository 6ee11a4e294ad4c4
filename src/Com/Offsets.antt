-- ===== src/Com/Offsets.antt =====
-- Where `read_byte` and `write_byte` read and write.
use software_on_silicon.Base.{
  ℕ, ◌+◌, ◌%◌, ◌<◌, ◌≡◌, refl, ◌≢◌, sym, arith, List, length, length-set, get_or, get_or-set_self,
  get_or-set_ne, set, leb, if◌then◌else◌,
}
use native.Mathlib.Nat.{mod-eq_of_lt, mod_self}
use native.Mathlib.Decide.{dec_lt}
use software_on_silicon.Errors.{ok}
use software_on_silicon.Com.{Com, new_com, read_byte, write_byte}

-- What the constructor establishes and the two functions keep: both offsets lie in their buffers.
pub record IsValid (c : Com) : Type 0 where
  pub in_first : c.in_start ≡ 0
  pub in_last : c.in_end ≡ length c.in_buffer
  pub out_first : c.out_start ≡ 0
  pub out_last : c.out_end ≡ length c.out_buffer
  pub same_size : length c.in_buffer ≡ length c.out_buffer
  pub read_in : c.read_offset ≡ 0
  pub write_in : c.write_offset < length c.out_buffer

-- The constructor accepts only two buffers of one length that is not zero, and what it builds
-- is valid.
pub new_com-IsValid :
    (in_buffer out_buffer : List ℕ) {c : Com}
    → new_com in_buffer out_buffer ≡ ok c
    → IsValid c × (0 < length in_buffer) × (length in_buffer ≡ length out_buffer)
unfolding new_com
new_com-IsValid in_buffer out_buffer h = ground arith

next_offset : (i n : ℕ) → i < n → (if leb n (i + 1) then 0 else i + 1) ≡ (i + 1) % n
next_offset i n h = elim (dec_lt (i + 1) n) [
  | yes p ↦ ground (arith, mod-eq_of_lt p)
  | no p ↦ let e : i + 1 ≡ n = omega arith in rw e (ground (arith, mod_self n))
]

-- The port after `write_byte`.
abbrev pub written : Com → ℕ → Com
written c byte = record c {
  out_buffer = set c.out_buffer c.write_offset byte;
  write_offset = if leb (length c.out_buffer) (c.write_offset + 1) then 0 else c.write_offset + 1;
}

-- A valid port takes a byte: `write_byte` returns, stores the byte at the write offset and nowhere
-- else, moves the offset on by one round the end of the buffer, and leaves the port valid.
pub write_byte_lem :
    (c : Com) (byte : ℕ)
    → IsValid c
    → (c' : Com) × (write_byte c byte ≡ ok c')
      × IsValid c'
      × (get_or c'.out_buffer c.write_offset 0 ≡ byte)
      × (c'.write_offset ≡ (c.write_offset + 1) % length c.out_buffer)
      × (c'.in_buffer ≡ c.in_buffer)
      × (c'.signal ≡ c.signal)
      × ((j : ℕ) → j ≢ c.write_offset → get_or c'.out_buffer j 0 ≡ get_or c.out_buffer j 0)
unfolding write_byte
write_byte_lem c byte v = (
  written c byte,
  ground arith,
  ground (arith, length-set c.out_buffer c.write_offset byte),
  get_or-set_self c.out_buffer c.write_offset byte 0 v.write_in,
  next_offset c.write_offset (length c.out_buffer) v.write_in,
  refl,
  refl,
  λ j ne. get_or-set_ne c.out_buffer c.write_offset j byte 0 (λ e. ne (sym e)),
)

-- `read_byte` takes the length of the in-buffer to be the distance from its start to its start, so
-- the offset never moves: a valid port of any size returns and gives the first byte of the
-- buffer, and does not change.
pub read_byte_stays : (c : Com) → IsValid c → read_byte c ≡ ok (get_or c.in_buffer 0 0, c)
unfolding read_byte
read_byte_stays c v = ground arith
