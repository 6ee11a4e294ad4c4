-- ===== src/Serial/State.antt =====
-- The members of `Serial`, and the protocol's states.
use software_on_silicon.Base.{ℕ, Bool, true, false, update}
use software_on_silicon.Block.{Block}
use software_on_silicon.Sync.{Sync, num_ids}
use software_on_silicon.Com.{Com}

-- `SOS::Protocol::state`.
abbrev pub sighup : ℕ
sighup = 0x3D

abbrev pub poweron : ℕ
poweron = 0x3E

abbrev pub idle : ℕ
idle = 0x3B

abbrev pub shutdown : ℕ
shutdown = 0x3C

abbrev pub lower_states : ℕ
lower_states = 1

-- `com_vars`.
pub record ComVars : Type 0 where
  pub received_idle : Bool
  pub sent_idle : Bool
  pub received_com_shutdown : Bool
  pub sent_com_shutdown : Bool
  pub received_sighup : Bool
  pub sent_sighup : Bool
  pub acknowledge_requested : Bool
  pub received_request : Bool
  pub received_acknowledge : Bool
  pub descendants_notified : Bool

unfoldable pub new_com_vars : ComVars
new_com_vars = record {
  received_idle = false;
  sent_idle = false;
  received_com_shutdown = false;
  sent_com_shutdown = false;
  received_sighup = false;
  sent_sighup = false;
  acknowledge_requested = false;
  received_request = false;
  received_acknowledge = false;
  descendants_notified = false;
}

-- Which class overrides the virtual functions: `FPGA` over `FPGACrossover` or `MCU` over
-- `MCUCrossover`.
pub data Role : Type 0 where
  fpga : Role
  mcu : Role

pub record Serial : Type 0 where
  pub block : Block
  pub vars : ComVars
  pub mcu_updated : Bool
  pub fpga_acknowledge : Bool
  pub fpga_updated : Bool
  pub mcu_acknowledge : Bool
  pub first_run : Bool
  pub incoming_request : ℕ
  pub waiting_confirmation : ℕ

abbrev pub put_sync : Serial → Sync → Serial
put_sync s y = record s { block = record (s.block) { sync = y } }

abbrev pub put_port : Serial → Com → Serial
put_port s c = record s { block = record (s.block) { uart = c } }

abbrev pub put_read_lock : Serial → ℕ → Bool → Serial
put_read_lock s id v = record s {
  block = record (s.block) { read_lock = update s.block.read_lock id v };
}

abbrev pub put_transfer : Serial → ℕ → Bool → Serial
put_transfer s id v = record s {
  block = record (s.block) { transfer = update s.block.transfer id v };
}

-- The members as they are initialised, over a block layer.
unfoldable pub new_serial : Block → Serial
unfolding new_com_vars
new_serial b = record {
  block = b;
  vars = new_com_vars;
  mcu_updated = false;
  fpga_acknowledge = false;
  fpga_updated = false;
  mcu_acknowledge = false;
  first_run = true;
  incoming_request = num_ids;
  waiting_confirmation = num_ids;
}
