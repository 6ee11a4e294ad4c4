-- ===== src/Block/Change.antt =====
-- Changes to a block that keep its invariant.
use software_on_silicon.Base.{ℕ, ◌<◌, ◌≡◌, arith, true, false, update}
use software_on_silicon.Com.{Com}
use software_on_silicon.Com.Offsets.{IsValid}
use software_on_silicon.Sync.{Sync}
use software_on_silicon.Sync.Laws.{Framed}
use software_on_silicon.Block.{Block}
use software_on_silicon.Block.Sound.{IsSound}

-- The switches are no part of the invariant.
pub IsSound-sync :
    (b : Block) (y : Sync) → Framed b.sync y → IsSound b → IsSound (record b { sync = y })
IsSound-sync b y f v = record {
  port = v.port;
  unlocked = rw f.lock v.unlocked;
  own = rw f.descriptors v.own;
  shared = rw f.shared v.shared;
  exclusive = v.exclusive;
  origin = rw f.descriptors v.origin;
  destination = rw f.descriptors v.destination;
  write_idle = v.write_idle;
  write_place = v.write_place;
  write_data_place = rw f.descriptors v.write_data_place;
  write_padding_place = rw f.descriptors v.write_padding_place;
  write_phase = v.write_phase;
  write_coded = v.write_coded;
  read_idle = v.read_idle;
  read_place = v.read_place;
  read_room = rw f.descriptors v.read_room;
  read_phase = v.read_phase;
  read_coded = v.read_coded;
  read_fits = v.read_fits;
}

pub IsSound-port : (b : Block) (u : Com) → IsValid u → IsSound b → IsSound (record b { uart = u })
IsSound-port b u valid v = record {
  port = valid;
  unlocked = v.unlocked;
  own = v.own;
  shared = v.shared;
  exclusive = v.exclusive;
  origin = v.origin;
  destination = v.destination;
  write_idle = v.write_idle;
  write_place = v.write_place;
  write_data_place = v.write_data_place;
  write_padding_place = v.write_padding_place;
  write_phase = v.write_phase;
  write_coded = v.write_coded;
  read_idle = v.read_idle;
  read_place = v.read_place;
  read_room = v.read_room;
  read_phase = v.read_phase;
  read_coded = v.read_coded;
  read_fits = v.read_fits;
}

-- An object that is not in transfer may be read-locked.
pub IsSound-read_lock :
    (b : Block) (id : ℕ)
    → b.transfer id ≡ false
    → IsSound b
    → IsSound (record b { read_lock = update b.read_lock id true })
IsSound-read_lock b id still v = record {
  port = v.port;
  unlocked = v.unlocked;
  own = v.own;
  shared = v.shared;
  exclusive = λ j h. ground (arith, v.exclusive j);
  origin = v.origin;
  destination = λ h. ((v.destination h).0, ground (arith, (v.destination h).1));
  write_idle = v.write_idle;
  write_place = v.write_place;
  write_data_place = v.write_data_place;
  write_padding_place = v.write_padding_place;
  write_phase = v.write_phase;
  write_coded = v.write_coded;
  read_idle = v.read_idle;
  read_place = v.read_place;
  read_room = v.read_room;
  read_phase = v.read_phase;
  read_coded = v.read_coded;
  read_fits = v.read_fits;
}

-- An object that is not read-locked may be put in transfer.
pub IsSound-transfer :
    (b : Block) (id : ℕ)
    → b.read_lock id ≡ false
    → IsSound b
    → IsSound (record b { transfer = update b.transfer id true })
IsSound-transfer b id open_to_write v = record {
  port = v.port;
  unlocked = v.unlocked;
  own = v.own;
  shared = v.shared;
  exclusive = λ j h. ground (arith, v.exclusive j h);
  origin = λ h. ((v.origin h).0, ground (arith, (v.origin h).1));
  destination = v.destination;
  write_idle = v.write_idle;
  write_place = v.write_place;
  write_data_place = v.write_data_place;
  write_padding_place = v.write_padding_place;
  write_phase = v.write_phase;
  write_coded = v.write_coded;
  read_idle = v.read_idle;
  read_place = v.read_place;
  read_room = v.read_room;
  read_phase = v.read_phase;
  read_coded = v.read_coded;
  read_fits = v.read_fits;
}

-- An object in transfer may be locked for sending.
pub IsSound-send_lock :
    (b : Block) (id : ℕ)
    → b.send_lock ≡ false
    → id < b.sync.descriptors.count
    → b.transfer id ≡ true
    → IsSound b
    → IsSound (record b { send_lock = true; write_origin = id })
IsSound-send_lock b id free known flying v =
    let (rewound, aligned) = v.write_idle free in
    let (positive, whole, small) = v.own.sizes id known in
    record {
      port = v.port;
      unlocked = v.unlocked;
      own = v.own;
      shared = v.shared;
      exclusive = v.exclusive;
      origin = λ h. (known, flying);
      destination = v.destination;
      write_idle = λ h. cc;
      write_place = λ h. omega arith;
      write_data_place = λ h lt. omega arith;
      write_padding_place = λ h. omega arith;
      write_phase = v.write_phase;
      write_coded = v.write_coded;
      read_idle = v.read_idle;
      read_place = v.read_place;
      read_room = v.read_room;
      read_phase = v.read_phase;
      read_coded = v.read_coded;
      read_fits = v.read_fits;
    }

-- The bytes of the objects are no part of the invariant.
pub IsSound-memory :
    (b : Block) (m : ℕ → ℕ)
    → IsSound b
    → IsSound (record b { sync = record (b.sync) { bus = record (b.sync.bus) { memory = m } } })
IsSound-memory b m v = record {
  port = v.port;
  unlocked = v.unlocked;
  own = v.own;
  shared = v.shared;
  exclusive = v.exclusive;
  origin = v.origin;
  destination = v.destination;
  write_idle = v.write_idle;
  write_place = v.write_place;
  write_data_place = v.write_data_place;
  write_padding_place = v.write_padding_place;
  write_phase = v.write_phase;
  write_coded = v.write_coded;
  read_idle = v.read_idle;
  read_place = v.read_place;
  read_room = v.read_room;
  read_phase = v.read_phase;
  read_coded = v.read_coded;
  read_fits = v.read_fits;
}
