-- ===== src/Controllers/Passthru.antt =====
-- The controllers of include/software-on-silicon/MemoryController.hpp and SerialNotifier.hpp that
-- pass a bus on to their child, and the classes of impl/RingToMemory.cpp and
-- impl/MemoryController.cpp over them.
pub mod Buffers
pub mod Endpoints
use software_on_silicon.Base.{ℕ}
use software_on_silicon.Signals.{HandShake}
use software_on_silicon.Controllers.{
  Reference, Kind, async, simple, preemptive, event, serial_event, serial_sequential, Bus, Store,
  Intrinsic, SubController, new_member, new_dummy,
}

-- A dummy with another bus, by the class of its own signal.
pub record PassthruDummy (k : Kind) : Type 0 where
  pub stop_token : HandShake
  pub sub : SubController k
  pub other : Reference

abbrev pub PassthruAsyncDummy : Type 0
PassthruAsyncDummy = PassthruDummy async

abbrev pub PassthruSimpleDummy : Type 0
PassthruSimpleDummy = PassthruDummy simple

abbrev pub PassthruPreemptiveDummy : Type 0
PassthruPreemptiveDummy = PassthruDummy preemptive

abbrev pub PassthruEventDummy : Type 0
PassthruEventDummy = PassthruDummy event

abbrev pub SerialPassthruEventDummy : Type 0
SerialPassthruEventDummy = PassthruDummy serial_event

unfoldable pub new_passthru_dummy : (k : Kind) → Intrinsic k → Reference → PassthruDummy k
unfolding new_dummy
new_passthru_dummy k signal other =
    let base = new_dummy k signal in
    record { stop_token = base.stop_token; sub = base.sub; other = other }

-- The template parameter `S`, with the constructor that takes its bus and the other bus.
pub record PassthruClass (C : Type 0) : Type 0 where
  pub bus_type : Bus
  pub make : Reference → Reference → Store → C × Store

-- A controller with a bus of its own for the child, to which it passes the other bus on.
pub record PassthruController (k : Kind) (C : Type 0) : Type 0 where
  pub stop_token : HandShake
  pub sub : SubController k
  pub foreign : Reference
  pub other : Reference
  pub child : C

abbrev pub PassthruAsyncController : Type 0 → Type 0
PassthruAsyncController = PassthruController async

abbrev pub PassthruSimpleController : Type 0 → Type 0
PassthruSimpleController = PassthruController simple

abbrev pub PassthruPreemptiveController : Type 0 → Type 0
PassthruPreemptiveController = PassthruController preemptive

abbrev pub PassthruEventController : Type 0 → Type 0
PassthruEventController = PassthruController event

abbrev pub SerialPassthruSerialSequentialController : Type 0 → Type 0
SerialPassthruSerialSequentialController = PassthruController serial_sequential

unfoldable pub new_passthru_controller :
    {C : Type 0}
    → (k : Kind) → PassthruClass C
    → Intrinsic k
    → Reference
    → Store
    → PassthruController k C × Store
unfolding new_passthru_dummy new_member
new_passthru_controller k s signal other h =
    let base = new_passthru_dummy k signal other in
    let (foreign, t) = new_member s.bus_type h in
    let (child, u) = s.make foreign other t in
    (
      record {
        stop_token = base.stop_token;
        sub = base.sub;
        foreign = foreign;
        other = base.other;
        child = child;
      },
      u,
    )

-- A controller that passes both buses on.
pub record DoublePassthruController (k : Kind) (C : Type 0) : Type 0 where
  pub stop_token : HandShake
  pub sub : SubController k
  pub passthru : Reference
  pub other : Reference
  pub child : C

abbrev pub DoublePassthruAsyncController : Type 0 → Type 0
DoublePassthruAsyncController = DoublePassthruController async

abbrev pub DoublePassthruSimpleController : Type 0 → Type 0
DoublePassthruSimpleController = DoublePassthruController simple

abbrev pub DoublePassthruPreemptiveController : Type 0 → Type 0
DoublePassthruPreemptiveController = DoublePassthruController preemptive

abbrev pub DoublePassthruEventController : Type 0 → Type 0
DoublePassthruEventController = DoublePassthruController event

unfoldable pub new_double_passthru_controller :
    {C : Type 0}
    → (k : Kind) → PassthruClass C
    → Intrinsic k
    → Reference
    → Reference
    → Store
    → DoublePassthruController k C × Store
unfolding new_passthru_dummy
new_double_passthru_controller k s signal passthru other h =
    let base = new_passthru_dummy k signal other in
    let (child, u) = s.make passthru other h in
    (
      record {
        stop_token = base.stop_token;
        sub = base.sub;
        passthru = passthru;
        other = base.other;
        child = child;
      },
      u,
    )
