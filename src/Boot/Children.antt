-- ===== src/Boot/Children.antt =====
-- The child of a bootstrap controller of include/software-on-silicon/rtos_helpers.hpp.
use software_on_silicon.Base.{◌≡◌, refl, sym, Option, none, some, true, false, List, [], ◌∷◌}
use software_on_silicon.Errors.{ok, aborted, ok_inj, aborted_not_ok, Severity}
use software_on_silicon.Errors.Code.{ErrorCode}
use software_on_silicon.Boot.{
  Bootstrap, new_bootstrap, destroy_bootstrap, stop_descendants, descendants_stopped,
}

-- The child is there, or it has been deleted once.
data IsOwned {S : Type 0} (x : S) : Option S → List S → Type 0 where
  kept : IsOwned x (some x) []
  gone : IsOwned x none (x ∷ [])

module _ {G F S : Type 0} where
  -- What happens to a controller after its construction: calls of `stop_descendants` that return,
  -- and changes of its signal and of the bus of its child.
  pub data Bootstraps (make : F → S) (signal : G) (foreign : F) : Bootstrap G F S → Type 0 where
    constructs : Bootstraps make signal foreign (new_bootstrap make signal foreign)
    stops :
        {b c : Bootstrap G F S}
        → Bootstraps make signal foreign b
        → stop_descendants b ≡ ok c
        → Bootstraps make signal foreign c
    signals :
        {b : Bootstrap G F S} (g : G) (f : F)
        → Bootstraps make signal foreign b
        → Bootstraps make signal foreign (record b { intrinsic = g; foreign = f })

  stop_descendants-IsOwned :
      (x : S) (b c : Bootstrap G F S)
      → stop_descendants b ≡ ok c
      → IsOwned x b.child b.deleted
      → IsOwned x c.child c.deleted
  unfolding stop_descendants
  stop_descendants-IsOwned x b c e owned = go owned e
    where
      go :
          {o : Option S} {l : List S}
          → IsOwned x o l
          → stop_descendants (record b { child = o; deleted = l }) ≡ ok c
          → IsOwned x c.child c.deleted
      go kept e = rw (sym (ok_inj e)) gone
      go gone e = absurd (aborted_not_ok e)

  Bootstraps-IsOwned :
      {make : F → S} {signal : G} {foreign : F} {b : Bootstrap G F S}
      → Bootstraps make signal foreign b
      → IsOwned (make foreign) b.child b.deleted
  unfolding new_bootstrap
  Bootstraps-IsOwned constructs = kept
  Bootstraps-IsOwned {make} {foreign} (stops {b} {c} r e) =
      stop_descendants-IsOwned (make foreign) b c e (Bootstraps-IsOwned r)
  Bootstraps-IsOwned (signals g f r) = Bootstraps-IsOwned r

  abbrev IsReleased : S → Bootstrap G F S → Type 0
  IsReleased x b =
      ((destroy_bootstrap b).deleted ≡ x ∷ [])
      × (descendants_stopped (destroy_bootstrap b) ≡ true)
      × (descendants_stopped b ≡ false
          → (c : Bootstrap G F S) × (stop_descendants b ≡ ok c)
            × (descendants_stopped c ≡ true)
            × (c.deleted ≡ x ∷ []))
      × (descendants_stopped b ≡ true
          → stop_descendants b ≡ aborted Severity.runtime ErrorCode.child_has_already_been_deleted)

  IsOwned-IsReleased :
      (x : S) (b : Bootstrap G F S) {o : Option S} {l : List S}
      → IsOwned x o l
      → IsReleased x (record b { child = o; deleted = l })
  unfolding destroy_bootstrap stop_descendants descendants_stopped
  IsOwned-IsReleased x b kept = (refl, refl, λ e. (_, refl, refl, refl), λ e. absurd (distinct e))
    where
      distinct : ¬ (false ≡ true)
      distinct e = cc
  IsOwned-IsReleased x b gone = (refl, refl, λ e. absurd (distinct e), λ e. refl)
    where
      distinct : ¬ (true ≡ false)
      distinct e = cc

  -- Whatever calls a bootstrap controller has seen, its destructor leaves its child deleted once and
  -- the pointer null. Until then `stop_descendants` deletes the child if it is still there, and
  -- reports an error if it is not.
  pub Bootstraps-destroy_bootstrap :
      (make : F → S) (signal : G) (foreign : F) (b : Bootstrap G F S)
      → Bootstraps make signal foreign b
      → ((destroy_bootstrap b).deleted ≡ make foreign ∷ [])
        × (descendants_stopped (destroy_bootstrap b) ≡ true)
        × (descendants_stopped b ≡ false
            → (c : Bootstrap G F S) × (stop_descendants b ≡ ok c)
              × (descendants_stopped c ≡ true)
              × (c.deleted ≡ make foreign ∷ []))
        × (descendants_stopped b ≡ true
            → stop_descendants b
              ≡ aborted Severity.runtime ErrorCode.child_has_already_been_deleted)
  Bootstraps-destroy_bootstrap make signal foreign b r =
      IsOwned-IsReleased (make foreign) b (Bootstraps-IsOwned r)
