-- ===== src/Controllers.antt =====
-- The controller classes of include/software-on-silicon/INTERFACE.hpp, rtos_helpers.hpp,
-- MemoryController.hpp and SerialNotifier.hpp: which bus a controller constructs, which it is
-- handed, and what it passes on to its child.
pub mod Passthru
pub mod Cascade
use software_on_silicon.Base.{ℕ, suc, Option, none, some, Array, update}
use software_on_silicon.Signals.{
  HandShake, Notify, Ring, AsyncAndHandShake, NotifyAndHandShake, RingAndHandShake, DoubleHandShake,
  new_hand_shake, new_notify, new_ring, new_async_and_hand_shake, new_notify_and_hand_shake,
  new_ring_and_hand_shake, new_double_hand_shake,
}
use software_on_silicon.Com.{Com}
use software_on_silicon.Sync.{ResolverBus}
use software_on_silicon.Resolver.{SequentialBus, new_sequential_bus}
use software_on_silicon.Memory.{Blocker}

-- A reference, as the address of a bus: before it is bound it refers to nothing.
pub data Reference : Type 0 where
  unbound : Reference
  to : ℕ → Reference

-- The classes derived from `SubController`, by what their signal is: none, `Notify`, `Ring`,
-- `HandShake`, those of rtos_helpers.hpp, and the two of SerialNotifier.hpp.
pub data Kind : Type 0 where
  async : Kind
  simple : Kind
  preemptive : Kind
  event : Kind
  stoppable_async : Kind
  stoppable_simple : Kind
  stoppable_preemptive : Kind
  stoppable_event : Kind
  serial_sequential : Kind
  serial_event : Kind

-- The buses.
pub data Bus : Type 0 where
  no_bus : Bus
  bus_notifier : Notify → Bus
  bus_ring : Ring → Bus
  bus_shaker : HandShake → Bus
  bus_async_and_shaker : AsyncAndHandShake → Bus
  bus_notifier_and_shaker : NotifyAndHandShake → Bus
  bus_ring_and_shaker : RingAndHandShake → Bus
  bus_double_shaker : DoubleHandShake → Bus
  bus_serial_sequential : SequentialBus → Bus
  serial_resolver_bus : ResolverBus → Bus
  blocker_bus : Blocker ℕ → Bus
  com_bus : Com → Bus

-- What is constructed at each address, and the first address that is free.
pub record Store : Type 0 where
  pub cells : Array (Option Bus)
  pub next : ℕ

-- What is constructed at a reference.
unfoldable pub at : Store → Reference → Option Bus
at h unbound = none
at h (to place) = h.cells place

unfoldable pub construct_at : ℕ → Bus → Store → Store
construct_at place bus h = record h { cells = update h.cells place (some bus) }

-- A member that is a bus: `_foreign`.
unfoldable pub new_member : Bus → Store → Reference × Store
unfolding construct_at
new_member bus h = (to h.next, record (construct_at h.next bus h) { next = suc h.next })

-- What a class takes for its `_intrinsic`: `SubController` has none.
abbrev pub Intrinsic : Kind → Type 0
Intrinsic async = Unit
Intrinsic _ = Reference

-- What it takes from a bus that it is handed, `bus.signal`.
abbrev pub signal_of : (k : Kind) → Reference → Intrinsic k
signal_of async bus = tt
signal_of simple bus = bus
signal_of preemptive bus = bus
signal_of event bus = bus
signal_of stoppable_async bus = bus
signal_of stoppable_simple bus = bus
signal_of stoppable_preemptive bus = bus
signal_of stoppable_event bus = bus
signal_of serial_sequential bus = bus
signal_of serial_event bus = bus

-- `bus_type()`, where the constructor has no arguments; `fresh` is the new `SerialResolverBus`.
unfoldable pub new_bus : ResolverBus → Kind → Bus
unfolding new_hand_shake new_notify new_ring new_async_and_hand_shake new_notify_and_hand_shake
    new_ring_and_hand_shake new_double_hand_shake new_sequential_bus
new_bus fresh async = no_bus
new_bus fresh simple = bus_notifier new_notify
new_bus fresh preemptive = bus_ring new_ring
new_bus fresh event = bus_shaker new_hand_shake
new_bus fresh stoppable_async = bus_async_and_shaker new_async_and_hand_shake
new_bus fresh stoppable_simple = bus_notifier_and_shaker new_notify_and_hand_shake
new_bus fresh stoppable_preemptive = bus_ring_and_shaker new_ring_and_hand_shake
new_bus fresh stoppable_event = bus_double_shaker new_double_hand_shake
new_bus fresh serial_sequential = bus_serial_sequential new_sequential_bus
new_bus fresh serial_event = serial_resolver_bus fresh

-- `SubController` and the classes derived from it.
pub record SubController (k : Kind) : Type 0 where
  pub intrinsic : Intrinsic k

abbrev pub SimpleSubController : Type 0
SimpleSubController = SubController simple

abbrev pub PreemptiveSubController : Type 0
PreemptiveSubController = SubController preemptive

abbrev pub EventSubController : Type 0
EventSubController = SubController event

abbrev pub StoppableAsyncSubController : Type 0
StoppableAsyncSubController = SubController stoppable_async

abbrev pub StoppableSimpleSubController : Type 0
StoppableSimpleSubController = SubController stoppable_simple

abbrev pub StoppablePreemptiveSubController : Type 0
StoppablePreemptiveSubController = SubController stoppable_preemptive

abbrev pub StoppableEventSubController : Type 0
StoppableEventSubController = SubController stoppable_event

abbrev pub SerialSequentialSubController : Type 0
SerialSequentialSubController = SubController serial_sequential

abbrev pub SerialEventSubController : Type 0
SerialEventSubController = SubController serial_event

-- A dummy: `Loop` and a `SubController`.
pub record Dummy (k : Kind) : Type 0 where
  pub stop_token : HandShake
  pub sub : SubController k

abbrev pub AsyncDummy : Type 0
AsyncDummy = Dummy async

abbrev pub SimpleDummy : Type 0
SimpleDummy = Dummy simple

abbrev pub PreemptiveDummy : Type 0
PreemptiveDummy = Dummy preemptive

abbrev pub EventDummy : Type 0
EventDummy = Dummy event

abbrev pub StoppableAsyncDummy : Type 0
StoppableAsyncDummy = Dummy stoppable_async

abbrev pub StoppableSimpleDummy : Type 0
StoppableSimpleDummy = Dummy stoppable_simple

abbrev pub StoppablePreemptiveDummy : Type 0
StoppablePreemptiveDummy = Dummy stoppable_preemptive

abbrev pub StoppableEventDummy : Type 0
StoppableEventDummy = Dummy stoppable_event

unfoldable pub new_dummy : (k : Kind) → Intrinsic k → Dummy k
unfolding new_hand_shake
new_dummy k signal = record { stop_token = new_hand_shake; sub = record { intrinsic = signal } }

-- The template parameter `S` of a controller, with the constructor that takes its bus.
pub record Class (C : Type 0) : Type 0 where
  pub bus_type : Bus
  pub make : Reference → Store → C × Store

-- A controller with a bus of its own for its child, by the class of its own signal.
pub record Controller (k : Kind) (C : Type 0) : Type 0 where
  pub stop_token : HandShake
  pub sub : SubController k
  pub foreign : Reference
  pub child : C

abbrev pub AsyncController : Type 0 → Type 0
AsyncController = Controller async

abbrev pub SimpleController : Type 0 → Type 0
SimpleController = Controller simple

abbrev pub PreemptiveController : Type 0 → Type 0
PreemptiveController = Controller preemptive

abbrev pub EventController : Type 0 → Type 0
EventController = Controller event

-- The bases, then `_foreign`, then `_child`.
unfoldable pub new_controller :
    {C : Type 0} → (k : Kind) → Class C → Intrinsic k → Store → Controller k C × Store
unfolding new_member new_dummy
new_controller k s signal h =
    let base = new_dummy k signal in
    let (foreign, t) = new_member s.bus_type h in
    let (child, u) = s.make foreign t in
    (record { stop_token = base.stop_token; sub = base.sub; foreign = foreign; child = child }, u)
