-- ===== src/Serial/Crossover.antt =====
-- `FPGACrossover` and `MCUCrossover` of include/software-on-silicon/MCUFPGA.hpp: how the two high
-- bits of each byte carry the signals of the two sides.
use software_on_silicon.Base.{ℕ, ◌/◌, ◌%◌, Bool, true, false, ◌==◌, if◌then◌else◌}
use software_on_silicon.Wire.{set_bit6, set_bit7}
use software_on_silicon.Serial.State.{Role, fpga, mcu, Serial}

abbrev pub bit7 : ℕ → Bool
bit7 temp = temp / 128 % 2 == 1

abbrev pub bit6 : ℕ → Bool
bit6 temp = temp / 64 % 2 == 1

unfoldable pub read_bits : Role → Serial → ℕ → Serial
read_bits fpga s temp = record s {
  mcu_updated = bit7 temp;
  fpga_acknowledge = bit6 temp;
  mcu_acknowledge = false;
}
read_bits mcu s temp = record s {
  fpga_updated = bit7 temp;
  mcu_acknowledge = bit6 temp;
  fpga_acknowledge = false;
}

unfoldable pub write_bits : Role → Serial → ℕ → ℕ
write_bits fpga s out = set_bit6 (set_bit7 out s.fpga_updated) s.mcu_acknowledge
write_bits mcu s out = set_bit6 (set_bit7 out s.mcu_updated) s.fpga_acknowledge

unfoldable pub send_acknowledge : Role → Serial → Serial
send_acknowledge fpga s = if s.mcu_updated then record s { mcu_acknowledge = true } else s
send_acknowledge mcu s = if s.fpga_updated then record s { fpga_acknowledge = true } else s

unfoldable pub send_request : Role → Serial → Serial
send_request fpga s = record s { fpga_updated = true }
send_request mcu s = record s { mcu_updated = true }

-- The request and the acknowledge that have come in.
unfoldable pub receive_signals : Role → Serial → Bool × Bool × Serial
receive_signals fpga s =
    if s.fpga_acknowledge
    then (s.mcu_updated, true, record s { fpga_updated = false })
    else (s.mcu_updated, false, s)
receive_signals mcu s =
    if s.mcu_acknowledge
    then (s.fpga_updated, true, record s { mcu_updated = false })
    else (s.fpga_updated, false, s)
