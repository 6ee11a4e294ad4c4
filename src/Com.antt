-- ===== src/Com.antt =====
-- `ComBus` of include/software-on-silicon/rtos_helpers.hpp: the two byte buffers of a serial port
-- with their offsets and signals, and `read_byte` and `write_byte` of ByteWiseTransfer.hpp.
pub mod Offsets
use software_on_silicon.Base.{
  ℕ, ◌+◌, ◌-◌, Bool, true, false, List, ltb, leb, ◌==◌, if◌then◌else◌, length, get_or, set,
}
use software_on_silicon.Errors.{Outcome, ok, logic_error, runtime_error}
use software_on_silicon.Errors.Code.{ErrorCode}
use software_on_silicon.Signals.{DoubleHandShake, new_double_hand_shake}

-- The iterators of `ComSize` are positions in the two buffers, counted from their beginnings.
pub record Com : Type 0 where
  pub in_buffer : List ℕ
  pub out_buffer : List ℕ
  pub in_start : ℕ
  pub in_end : ℕ
  pub out_start : ℕ
  pub out_end : ℕ
  pub read_offset : ℕ
  pub write_offset : ℕ
  pub signal : DoubleHandShake

-- `std::distance`; the positions that the source hands over are in order.
abbrev pub distance : ℕ → ℕ → ℕ
distance first last = last - first

-- The constructor, over the whole of two buffers.
unfoldable pub new_com : List ℕ → List ℕ → Outcome Com
unfolding new_double_hand_shake
new_com in_buffer out_buffer =
    if ltb (distance 0 (length in_buffer)) 1
    then logic_error ErrorCode.combuffer_size_is_minimum_wordsize
    else if ltb (distance 0 (length out_buffer)) 1
    then logic_error ErrorCode.combuffer_size_is_minimum_wordsize
    else if distance 0 (length in_buffer) == distance 0 (length out_buffer)
    then ok (record {
      in_buffer = in_buffer;
      out_buffer = out_buffer;
      in_start = 0;
      in_end = length in_buffer;
      out_start = 0;
      out_end = length out_buffer;
      read_offset = 0;
      write_offset = 0;
      signal = new_double_hand_shake;
    })
    else logic_error ErrorCode.combuffer_in_and_out_size_not_equal

-- The length is the distance from the start to the start, as the source has it.
unfoldable pub read_byte : Com → Outcome (ℕ × Com)
read_byte c =
    let buffer_length = distance c.in_start c.in_start in
    if ltb buffer_length c.read_offset
    then runtime_error ErrorCode.attempted_read_after_end_of_buffer
    else let byte = get_or c.in_buffer (c.in_start + c.read_offset) 0 in
      let next = c.read_offset + 1 in
      ok (byte, record c { read_offset = if leb buffer_length next then 0 else next })

unfoldable pub write_byte : Com → ℕ → Outcome Com
write_byte c byte =
    let buffer_length = distance c.out_start c.out_end in
    if ltb buffer_length c.write_offset
    then runtime_error ErrorCode.attempted_write_after_end_of_buffer
    else let next = c.write_offset + 1 in
      ok (record c {
        out_buffer = set c.out_buffer (c.out_start + c.write_offset) byte;
        write_offset = if leb buffer_length next then 0 else next;
      })
