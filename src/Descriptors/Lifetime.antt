-- ===== src/Descriptors/Lifetime.antt =====
-- The objects that the descriptors of a new resolver's bus address, and those of one that is destroyed.
use software_on_silicon.Base.{ℕ, ◌+◌, ◌<◌, ◌≤◌, ◌≡◌, refl, ◌⊎◌, arith, true, false}
use software_on_silicon.Errors.{ok, spin}
use software_on_silicon.Sync.{num_ids, DmaDescriptor, ResolverBus, Sync}
use software_on_silicon.Block.Exchange.{Outside}
use software_on_silicon.Descriptors.{null_descriptor, clear_descriptors, destroy_resolver_bus}
use software_on_silicon.Descriptors.Variants.{clear_descriptors_lem}

-- A descriptor no byte of whose object lies in the range of `size` bytes from `place` on.
unfoldable pub Strays : ℕ → ℕ → DmaDescriptor → Type 0
Strays place size d =
    (byte : ℕ) → d.obj ≤ byte → byte < d.obj + d.obj_size → Outside place (place + size) byte

-- Two ranges of `size` bytes with none in common.
abbrev pub Apart : ℕ → ℕ → ℕ → Type 0
Apart size p q = (p + size ≤ q) ⊎ (q + size ≤ p)

-- The destructor waits for the lock of the descriptors, and leaves every descriptor null.
destroy_resolver_bus_lem :
    (b : ResolverBus)
    → (b.descriptors_updated ≡ true → destroy_resolver_bus b ≡ spin)
      × (b.descriptors_updated ≡ false
          → (gone : ResolverBus) × (destroy_resolver_bus b ≡ ok gone)
            × (gone.descriptors.count ≡ 0)
            × ((i : ℕ) → i < num_ids → gone.descriptors.arr i ≡ null_descriptor))
unfolding destroy_resolver_bus
destroy_resolver_bus_lem b = (
  λ held. ground (arith, held),
  λ free. (
    record b {
      descriptors = record { arr = clear_descriptors num_ids 0 b.descriptors.arr; count = 0 };
      descriptors_updated = false;
    },
    ground (arith, free),
    refl,
    λ i low. (clear_descriptors_lem num_ids 0 b.descriptors.arr).1 i (omega arith) low,
  ),
)
