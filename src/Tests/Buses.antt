-- ===== src/Tests/Buses.antt =====
-- The port, the resolver's bus and the error codes on the samples.
use software_on_silicon.Base.{ℕ, ◌≡◌, refl, arith, true, [], ◌∷◌}
use software_on_silicon.Errors.{ok}
use software_on_silicon.Com.{Com, new_com, read_byte}
use software_on_silicon.Com.Offsets.{IsValid, read_byte_stays}
use software_on_silicon.Sync.{Sync}
use software_on_silicon.Descriptors.{Element}
use software_on_silicon.Tests.Samples.{sync_over, blank, first_only}

abbrev two_cells : Com
two_cells = record {
  in_buffer = 1 ∷ 2 ∷ [];
  out_buffer = 3 ∷ 4 ∷ [];
  in_start = 0;
  in_end = 2;
  out_start = 0;
  out_end = 2;
  read_offset = 0;
  write_offset = 0;
  signal = record {
    updated = true;
    acknowledge = true;
    aux_updated = true;
    aux_acknowledge = true;
  };
}

two_cells-IsValid : IsValid two_cells
two_cells-IsValid = record {
  in_first = refl;
  in_last = refl;
  out_first = refl;
  out_last = refl;
  same_size = refl;
  read_in = refl;
  write_in = omega arith;
}

two_cells-new_com : new_com (1 ∷ 2 ∷ []) (3 ∷ 4 ∷ []) ≡ ok two_cells
unfolding new_com
two_cells-new_com = refl

-- The second byte is never read.
read_byte_example : read_byte two_cells ≡ ok (1, two_cells)
read_byte_example = read_byte_stays two_cells two_cells-IsValid

abbrev reading : Sync
reading = record (sync_over blank) { read_started_id = first_only }

-- A colour and two arrays of 999 bytes, at 9 and copied to 5000.
abbrev colour : Element
colour = record { offset = 0; size = 3 }

abbrev array_at : ℕ → Element
array_at place = record { offset = place; size = 999 }
