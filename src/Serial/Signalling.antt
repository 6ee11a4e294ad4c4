-- ===== src/Serial/Signalling.antt =====
-- What one side's crossover puts on the wire, the other side's takes off it.
use software_on_silicon.Base.{
  ℕ, ◌+◌, ◌*◌, ◌/◌, ◌%◌, ◌^◌, ◌<◌, ◌≡◌, ap, ◌∙◌, arith, Bool, true, false, ◌==◌, get_or, bit_xor,
}
use software_on_silicon.Errors.{ok}
use software_on_silicon.Com.Offsets.{IsValid, write_byte_lem}
use software_on_silicon.Sync.{num_ids}
use software_on_silicon.Wire.{bit_of}
use software_on_silicon.Wire.Bits.{bit_xor_low}
use software_on_silicon.Wire.RoundTrip.{IsSignal}
use software_on_silicon.Serial.State.{Role, fpga, mcu, Serial, put_port}
use software_on_silicon.Serial.Crossover.{read_bits, write_bits, send_request}
use software_on_silicon.Serial.Requests.{send_transfer_request, receive_transfer_request}
use software_on_silicon.Serial.ReadHook.{on_transfer_request, read_hook, state_code}

abbrev pub other_side : Role → Role
other_side fpga = mcu
other_side mcu = fpga

-- The signals that an endpoint sends.
abbrev pub update_out : Role → Serial → Bool
update_out fpga s = s.fpga_updated
update_out mcu s = s.mcu_updated

abbrev pub acknowledge_out : Role → Serial → Bool
acknowledge_out fpga s = s.mcu_acknowledge
acknowledge_out mcu s = s.fpga_acknowledge

-- The signals that an endpoint has taken in.
abbrev pub update_in : Role → Serial → Bool
update_in fpga s = s.mcu_updated
update_in mcu s = s.fpga_updated

abbrev pub acknowledge_in : Role → Serial → Bool
acknowledge_in fpga s = s.fpga_acknowledge
acknowledge_in mcu s = s.mcu_acknowledge

abbrev pub signal_of : Role → Serial → ℕ
signal_of role s = bit_of (update_out role s) * 2 + bit_of (acknowledge_out role s)

set_bits_lem :
    (p : ℕ) (u a : Bool)
    → p < 64
    → (bit_of u * 128 + p % 128) / 128 * 128 + bit_of a * 64 + (bit_of u * 128 + p % 128) % 64
      ≡ (bit_of u * 2 + bit_of a) * 64 + p
set_bits_lem p true true lt = omega arith
set_bits_lem p true false lt = omega arith
set_bits_lem p false true lt = omega arith
set_bits_lem p false false lt = omega arith

-- `write_bits` of either side leaves the six payload bits of a byte alone and puts its signals
-- above them.
pub write_bits-IsSignal :
    (role : Role) (s : Serial) → IsSignal (write_bits role s) (signal_of role s)
unfolding write_bits
write_bits-IsSignal fpga s = record {
  keeps = λ p lt. set_bits_lem p s.fpga_updated s.mcu_acknowledge lt;
}
write_bits-IsSignal mcu s = record {
  keeps = λ p lt. set_bits_lem p s.mcu_updated s.fpga_acknowledge lt;
}

high_bits_lem :
    (p : ℕ) (u a : Bool)
    → p < 64
    → let byte = (bit_of u * 2 + bit_of a) * 64 + p in
      ((byte / 128 % 2 == 1) ≡ u) × ((byte / 64 % 2 == 1) ≡ a)
high_bits_lem p true true lt = (ground arith, ground arith)
high_bits_lem p true false lt = (ground arith, ground arith)
high_bits_lem p false true lt = (ground arith, ground arith)
high_bits_lem p false false lt = (ground arith, ground arith)

-- The signals of a byte that one side sends, whatever its payload, are the ones that the other
-- side takes in: its update and its acknowledge.
pub read_bits-write_bits :
    (role : Role) (s t : Serial) (payload : ℕ)
    → payload < 64
    → let r = read_bits (other_side role) t (write_bits role s payload) in
      (update_in (other_side role) r ≡ update_out role s)
      × (acknowledge_in (other_side role) r ≡ acknowledge_out role s)
unfolding read_bits
read_bits-write_bits fpga s t p lt =
    rw (IsSignal.keeps (write_bits-IsSignal fpga s) p lt)
      (high_bits_lem p s.fpga_updated s.mcu_acknowledge lt)
read_bits-write_bits mcu s t p lt =
    rw (IsSignal.keeps (write_bits-IsSignal mcu s) p lt)
      (high_bits_lem p s.mcu_updated s.fpga_acknowledge lt)

state_code_lem : (signal p : ℕ) → signal < 4 → p < 64 → state_code (signal * 64 + p) ≡ p
unfolding state_code
state_code_lem signal p hs hp = omega arith

signal-lt : (role : Role) (s : Serial) → signal_of role s < 4
signal-lt fpga s = bits s.fpga_updated s.mcu_acknowledge
  where
    bits : (u a : Bool) → bit_of u * 2 + bit_of a < 4
    bits true true = omega arith
    bits true false = omega arith
    bits false true = omega arith
    bits false false = omega arith
signal-lt mcu s = bits s.mcu_updated s.fpga_acknowledge
  where
    bits : (u a : Bool) → bit_of u * 2 + bit_of a < 4
    bits true true = omega arith
    bits true false = omega arith
    bits false true = omega arith
    bits false false = omega arith

-- The byte that asks for the transfer of an object.
request_byte_lem :
    (role : Role) (s : Serial) (item : ℕ)
    → item < num_ids
    → bit_xor (write_bits role s 0) ((item + 1) % 256) ≡ signal_of role s * 64 + (item + 1)
request_byte_lem role s item lt =
    let e : (item + 1) % 256 ≡ item + 1 = omega arith in
    let z : signal_of role s * 64 + 0 ≡ signal_of role s * 2 ^ 6 = omega arith in
    rw (e, IsSignal.keeps (write_bits-IsSignal role s) 0 (omega arith), z)
      (bit_xor_low 6 (signal_of role s) (item + 1) (omega arith))

-- A request for an object reaches the other side as a request for that object: the byte that
-- `send_transfer_request` stores in a valid port is none of the protocol's states, and the other
-- side's `read_hook` takes the same id from it, unless it has received a sighup.
pub read_hook-send_transfer_request :
    (role : Role) (item : ℕ) (s t : Serial)
    → item < num_ids
    → IsValid s.block.uart
    → t.vars.received_sighup ≡ false
    → (u : Serial) × (send_transfer_request role item s ≡ ok u)
      × (read_hook (other_side role) t (get_or u.block.uart.out_buffer s.block.uart.write_offset 0)
          ≡ ok (record t { incoming_request = item }))
unfolding send_transfer_request read_hook on_transfer_request receive_transfer_request send_request
read_hook-send_transfer_request fpga item s t lt valid open_link =
    let r = send_request fpga s in
    let byte = bit_xor (write_bits fpga r 0) ((item + 1) % 256) in
    let (c, e, valid', stored, moved, incoming, signals, kept) =
      write_byte_lem s.block.uart byte valid in
    let code =
      ap state_code (stored ∙ request_byte_lem fpga r item lt)
      ∙ state_code_lem (signal_of fpga r) (item + 1) (signal-lt fpga r) (omega arith) in
    (put_port r c, ground (arith, e), ground (arith, code, open_link))
read_hook-send_transfer_request mcu item s t lt valid open_link =
    let r = send_request mcu s in
    let byte = bit_xor (write_bits mcu r 0) ((item + 1) % 256) in
    let (c, e, valid', stored, moved, incoming, signals, kept) =
      write_byte_lem s.block.uart byte valid in
    let code =
      ap state_code (stored ∙ request_byte_lem mcu r item lt)
      ∙ state_code_lem (signal_of mcu r) (item + 1) (signal-lt mcu r) (omega arith) in
    (put_port r c, ground (arith, e), ground (arith, code, open_link))
