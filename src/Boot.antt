-- ===== src/Boot.antt =====
-- include/software-on-silicon/rtos_helpers.hpp: the bootstrap controllers, which own a child
-- that they delete.
pub mod Children
use software_on_silicon.Base.{Option, none, some, Bool, true, false, List, [], ◌∷◌}
use software_on_silicon.Errors.{Outcome, ok, runtime_error}
use software_on_silicon.Errors.Code.{ErrorCode}
use software_on_silicon.Signals.{
  AsyncAndHandShake, NotifyAndHandShake, RingAndHandShake, DoubleHandShake,
}

-- A bootstrap controller with a signal in `G`, a bus in `F` for its child, and the child, which is
-- none when the pointer is null. `deleted` are the children that `delete` has been called on.
pub record Bootstrap (G F S : Type 0) : Type 0 where
  pub intrinsic : G
  pub foreign : F
  pub child : Option S
  pub deleted : List S

-- The four classes differ in the signal.
abbrev pub BootstrapAsyncController : Type 0 → Type 0 → Type 0
BootstrapAsyncController = Bootstrap AsyncAndHandShake

abbrev pub BootstrapSimpleController : Type 0 → Type 0 → Type 0
BootstrapSimpleController = Bootstrap NotifyAndHandShake

abbrev pub BootstrapPreemptiveController : Type 0 → Type 0 → Type 0
BootstrapPreemptiveController = Bootstrap RingAndHandShake

abbrev pub BootstrapEventController : Type 0 → Type 0 → Type 0
BootstrapEventController = Bootstrap DoubleHandShake

abbrev is_null : {S : Type 0} → Option S → Bool
is_null (some child) = false
is_null none = true

module _ {G F S : Type 0} where
  -- The constructor: `make` is that of the child.
  unfoldable pub new_bootstrap : (F → S) → G → F → Bootstrap G F S
  new_bootstrap make signal foreign = record {
    intrinsic = signal;
    foreign = foreign;
    child = some (make foreign);
    deleted = [];
  }

  abbrev delete_child : Bootstrap G F S → S → Bootstrap G F S
  delete_child b child = record b { child = none; deleted = child ∷ b.deleted }

  abbrev destroy_child : Bootstrap G F S → Option S → Bootstrap G F S
  destroy_child b (some child) = delete_child b child
  destroy_child b none = b

  abbrev stop_child : Bootstrap G F S → Option S → Outcome (Bootstrap G F S)
  stop_child b (some child) = ok (delete_child b child)
  stop_child b none = runtime_error ErrorCode.child_has_already_been_deleted

  -- The destructor, which deletes the child if there is one.
  unfoldable pub destroy_bootstrap : Bootstrap G F S → Bootstrap G F S
  destroy_bootstrap b = destroy_child b b.child

  unfoldable pub stop_descendants : Bootstrap G F S → Outcome (Bootstrap G F S)
  stop_descendants b = stop_child b b.child

  unfoldable pub descendants_stopped : Bootstrap G F S → Bool
  descendants_stopped b = is_null b.child
