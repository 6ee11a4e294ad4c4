-- ===== src/Block/Sound.antt =====
-- The invariant of the block layer.
use software_on_silicon.Base.{ℕ, ◌%◌, ◌^◌, ◌<◌, ◌≤◌, ◌≡◌, true, false}
use software_on_silicon.Com.Offsets.{IsValid}
use software_on_silicon.Sync.{DescriptorHelper, num_ids}
use software_on_silicon.Block.{Block}

-- Descriptors of objects whose sizes are multiples of three.
pub record IsSized (d : DescriptorHelper) : Type 0 where
  pub few : d.count ≤ num_ids
  pub sizes :
      (j : ℕ)
      → j < d.count
      → (0 < (d.arr j).obj_size) × ((d.arr j).obj_size % 3 ≡ 0) × ((d.arr j).obj_size < 2 ^ 64)

-- No object is read-locked and in transfer at once.
pub record IsSound (b : Block) : Type 0 where
  pub port : IsValid b.uart
  pub unlocked : b.sync.bus.descriptors_updated ≡ false
  pub own : IsSized b.sync.descriptors
  pub shared : IsSized b.sync.bus.descriptors
  pub exclusive : (j : ℕ) → b.read_lock j ≡ true → b.transfer j ≡ false
  pub origin :
      b.send_lock ≡ true
      → (b.write_origin < b.sync.descriptors.count) × (b.transfer b.write_origin ≡ true)
  pub destination :
      b.receive_lock ≡ true
      → (b.read_destination < b.sync.descriptors.count) × (b.read_lock b.read_destination ≡ true)
  pub write_idle : b.send_lock ≡ false → (b.write_origin_pos ≡ 0) × (b.write3plus1 ≡ 0)
  pub write_place : b.send_lock ≡ true → b.write_origin_pos % 3 ≡ b.write3plus1 % 3
  pub write_data_place :
      b.send_lock ≡ true
      → b.write3plus1 < 3
      → b.write_origin_pos < (b.sync.descriptors.arr b.write_origin).obj_size
  pub write_padding_place :
      b.send_lock ≡ true → b.write_origin_pos ≤ (b.sync.descriptors.arr b.write_origin).obj_size
  pub write_phase : b.write3plus1 ≤ 3
  pub write_coded : b.codec.write_count ≡ b.write3plus1
  pub read_idle : b.receive_lock ≡ false → (b.read_destination_pos ≡ 0) × (b.read4minus1 ≡ 0)
  pub read_place : b.read_destination_pos % 3 ≡ 0
  pub read_room :
      b.receive_lock ≡ true
      → b.read_destination_pos < (b.sync.descriptors.arr b.read_destination).obj_size
  pub read_phase : b.read4minus1 ≤ 3
  pub read_coded : b.codec.read_count ≡ b.read4minus1
  pub read_fits : b.codec.read_assembly < 2 ^ 24
