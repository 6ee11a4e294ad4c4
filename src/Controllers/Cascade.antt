-- ===== src/Controllers/Cascade.antt =====
-- Controllers over controllers: `SimpleController<EventController<...>>`.
use software_on_silicon.Base.{
  ℕ, suc, ◌+◌, ◌<◌, ◌≡◌, refl, ap, ◌∙◌, arith, some, update_self, update_ne,
}
use software_on_silicon.Sync.{ResolverBus}
use software_on_silicon.Controllers.{
  Reference, to, Kind, Store, Class, Dummy, Controller, signal_of, new_bus, new_dummy, new_member,
  construct_at, new_controller,
}

-- A dummy of a class, or a controller with its own signal over a child.
pub data Cascade : Type 0 where
  dummy : Kind → Cascade
  over : Kind → Cascade → Cascade

abbrev pub kind_of : Cascade → Kind
kind_of (dummy k) = k
kind_of (over k c) = k

abbrev pub Built : Cascade → Type 0
Built (dummy k) = Dummy k
Built (over k c) = Controller k (Built c)

-- Each class is derived from its controller and hands it the signal of its bus.
unfoldable pub class_of : ResolverBus → (c : Cascade) → Class (Built c)
unfolding new_dummy new_controller
class_of fresh (dummy k) = record {
  bus_type = new_bus fresh k;
  make = λ bus h. (new_dummy k (signal_of k bus), h);
}
class_of fresh (over k c) = record {
  bus_type = new_bus fresh k;
  make = λ bus h. new_controller k (class_of fresh c) (signal_of k bus) h;
}

-- The levels below the first.
unfoldable pub depth : Cascade → ℕ
depth (dummy k) = 0
depth (over k c) = suc (depth c)

-- Level by level: the signal is that of the bus that is handed down, the bus below is the next free
-- address and has been constructed for the class of the child.
unfoldable pub IsWired : ResolverBus → (c : Cascade) → Built c → Reference → ℕ → Store → Type 0
IsWired fresh (dummy k) b bus n h = b.sub.intrinsic ≡ signal_of k bus
IsWired fresh (over k c) b bus n h =
    (b.sub.intrinsic ≡ signal_of k bus)
    × (b.foreign ≡ to n)
    × (h.cells n ≡ some (new_bus fresh (kind_of c)))
    × IsWired fresh c b.child (to n) (suc n) h

class_of_bus :
    (fresh : ResolverBus) (c : Cascade) → (class_of fresh c).bus_type ≡ new_bus fresh (kind_of c)
unfolding class_of
class_of_bus fresh (dummy k) = refl
class_of_bus fresh (over k c) = refl

-- A cascade of controllers, of any classes and any depth, that is constructed over a bus. Each level
-- listens to the bus that the level above it has constructed for it, with the signal of its own
-- class still new, and the first one to the bus that it is handed; all these buses lie one after
-- another in fresh storage, and what had been constructed before is left as it was.
pub class_of-IsWired :
    (fresh : ResolverBus) (c : Cascade) (bus : Reference) (h : Store)
    → let r = (class_of fresh c).make bus h in
      IsWired fresh c r.0 bus h.next r.1
      × (r.1.next ≡ h.next + depth c)
      × ((a : ℕ) → a < h.next → r.1.cells a ≡ h.cells a)
unfolding IsWired class_of depth new_member construct_at
class_of-IsWired fresh (dummy k) bus h = (refl, omega arith, λ a low. refl)
class_of-IsWired fresh (over k c) bus h =
    let (foreign, t) = new_member (class_of fresh c).bus_type h in
    let (wired, next, kept) = class_of-IsWired fresh c foreign t in
    (
      (
        refl,
        refl,
        kept h.next (omega arith) ∙ update_self h.cells h.next _ ∙ ap some (class_of_bus fresh c),
        wired,
      ),
      omega (arith, next),
      λ a low. kept a (omega arith) ∙ update_ne h.cells h.next a _ (λ e. omega arith),
    )
