-- ===== src/Tests/Samples.antt =====
-- Endpoints with two objects: one of six bytes at address 0 and one of three bytes after it.
use software_on_silicon.Base.{
  ℕ, ◌+◌, Bool, true, false, ◌==◌, ltb, if◌then◌else◌, Array, arith, refl, [], ◌∷◌,
}
use software_on_silicon.Signals.{DoubleHandShake}
use software_on_silicon.Com.{Com}
use software_on_silicon.Com.Offsets.{IsValid}
use software_on_silicon.Sync.{Sync, DmaDescriptor, DescriptorHelper, new_resolver_switch, num_ids}
use software_on_silicon.Wire.{Codec}
use software_on_silicon.Block.{Block}
use software_on_silicon.Block.Sound.{IsSound, IsSized}
use software_on_silicon.Serial.State.{Serial, new_serial}

abbrev pub nothing : Array Bool
nothing i = false

abbrev pub first_only : Array Bool
first_only i = i == 0

abbrev pub ascending : Array ℕ
ascending i = if ltb i 9 then i + 10 else 0

abbrev pub blank : Array ℕ
blank i = 0

abbrev pub objects : Array DmaDescriptor
objects i = if i == 0 then record { obj = 0; obj_size = 6 } else record { obj = 6; obj_size = 3 }

abbrev pub helper : DescriptorHelper
helper = record { arr = objects; count = 2 }

abbrev pub open_flags : DoubleHandShake
open_flags = record {
  updated = false;
  acknowledge = true;
  aux_updated = true;
  aux_acknowledge = true;
}

abbrev pub port : Com
port = record {
  in_buffer = 0xFF ∷ [];
  out_buffer = 0 ∷ [];
  in_start = 0;
  in_end = 1;
  out_start = 0;
  out_end = 1;
  read_offset = 0;
  write_offset = 0;
  signal = open_flags;
}

abbrev pub sync_over : Array ℕ → Sync
sync_over memory = record {
  bus = record {
    switches = λ i. new_resolver_switch;
    trigger_resolve = true;
    descriptors_updated = false;
    descriptors = helper;
    memory = memory;
  };
  descriptors = helper;
  read_started_id = nothing;
}

abbrev pub codec : Codec
codec = record { write_count = 0; write_assembly = blank; read_count = 0; read_assembly = 0 }

-- Nothing is locked or in transfer.
abbrev pub idle_block : Array ℕ → Block
idle_block memory = record {
  sync = sync_over memory;
  uart = port;
  codec = codec;
  receive_lock = false;
  read_destination_pos = 0;
  read_destination = num_ids;
  send_lock = false;
  write_origin_pos = 0;
  write_origin = num_ids;
  read_lock = nothing;
  transfer = nothing;
  rx_counter = blank;
  tx_counter = blank;
  read4minus1 = 0;
  write3plus1 = 0;
}

abbrev pub sender : Block
sender = record (idle_block ascending) { send_lock = true; write_origin = 0; transfer = first_only }

abbrev pub receiver : Block
receiver = record (idle_block blank) { read_lock = first_only }

pub port-IsValid : IsValid port
port-IsValid = record {
  in_first = refl;
  in_last = refl;
  out_first = refl;
  out_last = refl;
  same_size = refl;
  read_in = refl;
  write_in = omega arith;
}

pub helper-IsSized : IsSized helper
helper-IsSized = record {
  few = omega arith;
  sizes = λ j lt. (ground arith, ground arith, ground arith);
}

pub sender-IsSound : IsSound sender
sender-IsSound = record {
  port = port-IsValid;
  unlocked = refl;
  own = helper-IsSized;
  shared = helper-IsSized;
  exclusive = λ j h. cc;
  origin = λ h. (omega arith, refl);
  destination = λ h. cc;
  write_idle = λ h. (refl, refl);
  write_place = λ h. refl;
  write_data_place = λ h lt. omega arith;
  write_padding_place = λ h. omega arith;
  write_phase = omega arith;
  write_coded = refl;
  read_idle = λ h. (refl, refl);
  read_place = refl;
  read_room = λ h. cc;
  read_phase = omega arith;
  read_coded = refl;
  read_fits = omega arith;
}

pub receiver-IsSound : IsSound receiver
receiver-IsSound = record {
  port = port-IsValid;
  unlocked = refl;
  own = helper-IsSized;
  shared = helper-IsSized;
  exclusive = λ j h. refl;
  origin = λ h. cc;
  destination = λ h. cc;
  write_idle = λ h. (refl, refl);
  write_place = λ h. cc;
  write_data_place = λ h lt. cc;
  write_padding_place = λ h. cc;
  write_phase = omega arith;
  write_coded = refl;
  read_idle = λ h. (refl, refl);
  read_place = refl;
  read_room = λ h. cc;
  read_phase = omega arith;
  read_coded = refl;
  read_fits = omega arith;
}

-- An endpoint before its first step, and one that expects the first object.
abbrev pub fresh : Serial
fresh = new_serial (idle_block ascending)

abbrev pub expecting : Serial
expecting = record (new_serial receiver) { first_run = false }
