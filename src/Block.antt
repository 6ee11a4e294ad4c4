-- ===== src/Block.antt =====
-- `BlockWiseTransfer` of include/software-on-silicon/ByteWiseTransfer.hpp: objects go over the wire
-- byte by byte, in groups of three bytes that take four bytes on the wire.
pub mod Sender
pub mod Receiver
pub mod Sound
pub mod Change
pub mod Frame
pub mod WriteSound
pub mod StoreSound
pub mod ReadSound
pub mod Exchange
pub mod Groups
pub mod Transfer
use software_on_silicon.Base.{
  ℕ, zero, suc, ◌+◌, ◌%◌, ◌^◌, Bool, true, false, ltb, ◌==◌, if◌then◌else◌, Array, update,
}
use software_on_silicon.Errors.{Outcome, ok, logic_error, ◌>>=◌}
use software_on_silicon.Errors.Code.{ErrorCode}
use software_on_silicon.Sync.{
  Sync, DmaDescriptor, lock_descriptors, unlock_descriptors, emit_received, emit_sent,
}
use software_on_silicon.Com.{Com, write_byte}
use software_on_silicon.Wire
use software_on_silicon.Wire.{Codec, read_flush}

pub record Block : Type 0 where
  pub sync : Sync
  pub uart : Com
  pub codec : Codec
  pub receive_lock : Bool
  pub read_destination_pos : ℕ
  pub read_destination : ℕ
  pub send_lock : Bool
  pub write_origin_pos : ℕ
  pub write_origin : ℕ
  pub read_lock : Array Bool
  pub transfer : Array Bool
  pub rx_counter : Array ℕ
  pub tx_counter : Array ℕ
  pub read4minus1 : ℕ
  pub write3plus1 : ℕ

-- `++` on a `size_t` or an `unsigned long`.
abbrev pub next_size : ℕ → ℕ
next_size n = (n + 1) % 2 ^ 64

abbrev pub descriptor : Block → ℕ → DmaDescriptor
descriptor b id = b.sync.descriptors.arr id

-- Memory as the descriptors' owner sees it.
abbrev pub memory : Block → Array ℕ
memory b = b.sync.bus.memory

abbrev pub put_memory : Sync → ℕ → ℕ → Sync
put_memory s address byte = record s {
  bus = record (s.bus) { memory = update s.bus.memory address byte };
}

-- What the object's last group leaves behind.
abbrev pub finish_write : Block → Block
finish_write b = record b {
  sync = emit_sent b.sync b.write_origin;
  transfer = update b.transfer b.write_origin false;
  send_lock = false;
  tx_counter = update b.tx_counter b.write_origin (next_size (b.tx_counter b.write_origin));
  write_origin_pos = 0;
}

module _ (write_bits : ℕ → ℕ) where
  -- `write`, with its call of `write_byte`.
  unfoldable pub write : Block → ℕ → Outcome Block
  write b w =
      let (out, codec) = Wire.write write_bits b.codec w in
      write_byte b.uart out >>= λ uart. ok (record b { codec = codec; uart = uart })

  unfoldable pub write_data : Block → Outcome Block
  unfolding write
  write_data b = lock_descriptors b.sync >>= λ held.
      let byte = held.bus.memory ((held.descriptors.arr b.write_origin).obj + b.write_origin_pos) in
      write
        (record b {
          sync = unlock_descriptors held;
          write_origin_pos = next_size b.write_origin_pos;
          write3plus1 = b.write3plus1 + 1;
        })
        byte

  unfoldable pub write_padding : Block → Outcome Block
  unfolding write
  write_padding b =
      let done =
        if b.write_origin_pos == (descriptor b b.write_origin).obj_size
        then finish_write b
        else b in
      write (record done { write3plus1 = 0 }) 63

  unfoldable pub write_object : Block → Outcome (Bool × Block)
  unfolding write_data write_padding
  write_object b =
      if b.send_lock
      then ((if ltb b.write3plus1 3 then write_data b else write_padding b) >>= λ after.
          ok (true, after))
      else ok (false, b)

-- The search for a read-locked object: `n` rounds from id `j` on.
unfoldable pub find_read_lock : ℕ → ℕ → Block → Outcome Block
find_read_lock zero j b = ok b
find_read_lock (suc n) j b =
    let rest = find_read_lock n (j + 1) b in
    if b.read_lock j
    then (if b.read_destination_pos == 0
        then ok (record b { receive_lock = true; read_destination = j })
        else logic_error ErrorCode.previous_readobject_has_not_finished)
    else rest

unfoldable pub seek_destination : Block → Outcome Block
unfolding find_read_lock
seek_destination b = if b.receive_lock then ok b else find_read_lock b.sync.descriptors.count 0 b

-- The loop that stores three bytes: `n` rounds from index `i` on.
unfoldable pub store_bytes : ℕ → ℕ → Array ℕ → Block → Block
store_bytes zero i bytes b = b
store_bytes (suc n) i bytes b = store_bytes n (i + 1) bytes (record b {
  sync =
      put_memory b.sync ((descriptor b b.read_destination).obj + b.read_destination_pos) (bytes i);
  read_destination_pos = next_size b.read_destination_pos;
})

unfoldable pub store_group : Array ℕ → Block → Outcome Block
unfolding store_bytes
store_group bytes b =
    if ltb b.read_destination_pos (descriptor b b.read_destination).obj_size
    then (lock_descriptors b.sync >>= λ held.
        let stored = store_bytes 3 0 bytes (record b { sync = held }) in
        ok (record stored { sync = unlock_descriptors stored.sync }))
    else ok b

-- The object is complete when its position has reached its size.
unfoldable pub finish_read : Block → Block
finish_read b =
    if b.read_destination_pos == (descriptor b b.read_destination).obj_size
    then record b {
      read_lock = update b.read_lock b.read_destination false;
      receive_lock = false;
      sync = emit_received b.sync b.read_destination;
      rx_counter =
          update b.rx_counter b.read_destination (next_size (b.rx_counter b.read_destination));
      read_destination_pos = 0;
    }
    else b

unfoldable pub receive_byte : Block → ℕ → Outcome Block
unfolding store_group finish_read
receive_byte b byte =
    let (more, codec) = Wire.read b.codec byte in
    let c = record b { codec = codec } in
    if ltb c.read4minus1 3
    then ok (record c { read4minus1 = c.read4minus1 + 1 })
    else if c.read4minus1 == 3
    then (read_flush c.codec >>= λ flushed.
        store_group (flushed.0) (record c { codec = flushed.1 }) >>= λ stored.
        ok (record (finish_read stored) { read4minus1 = 0 }))
    else ok c

unfoldable pub read_object : Block → ℕ → Outcome Block
unfolding seek_destination receive_byte
read_object b byte = seek_destination b >>= λ sought.
    if sought.receive_lock
    then receive_byte sought byte
    else logic_error ErrorCode.no_idle_received_and_no_receivelock_obtained
