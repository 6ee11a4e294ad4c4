-- ===== src/Tests/Wiring.antt =====
-- The controllers over an empty store, and the signals that end the program.
use software_on_silicon.Base.{ℕ, ◌+◌, ◌<◌, ◌≡◌, refl, none, some, true, false, [], ◌∷◌}
use software_on_silicon.Errors.{ok}
use software_on_silicon.Signals.{cleared}
use software_on_silicon.Sync.{ResolverBus}
use software_on_silicon.Resolver.{SequentialBus}
use software_on_silicon.Memory.{new_blocker}
use software_on_silicon.Controllers.{to, simple, event, Store, blocker_bus, bus_serial_sequential}
use software_on_silicon.Controllers.Cascade.{
  Cascade, dummy, over, class_of, IsWired, depth, class_of-IsWired,
}
use software_on_silicon.Controllers.Passthru.Buffers.{
  new_ring_buffer_impl, new_write_priority_impl, new_ring_buffer_impl-new_write_priority_impl,
}
use software_on_silicon.Controllers.Passthru.Endpoints.{
  Host, new_mcu_rest, new_fpga_rest, IsJoined, new_mcu_rest-new_fpga_rest,
}
use software_on_silicon.Session.{
  Session, client_side, host_side, new_session, usr1_handler, usr2_handler, run_session,
  finish_session, Happens, begins, signals_client, signals_host, goes_round,
  run_session-finish_session,
}
use software_on_silicon.Tests.Samples.{sync_over, blank, ascending}

abbrev empty_store : Store
empty_store = record { cells = λ a. none; next = 0 }

abbrev resolver_bus : ResolverBus
resolver_bus = (sync_over blank).bus

-- `SimpleController<EventController<SimpleDummy>>`
abbrev light_below : Cascade
light_below = over simple (over event (dummy simple))

class_of-IsWired_example :
    let r = (class_of resolver_bus light_below).make (to 7) empty_store in
    IsWired resolver_bus light_below r.0 (to 7) 0 r.1
    × (r.1.next ≡ 0 + depth light_below)
    × ((a : ℕ) → a < 0 → r.1.cells a ≡ none)
class_of-IsWired_example = class_of-IsWired resolver_bus light_below (to 7) empty_store

new_ring_buffer_impl-new_write_priority_impl_example :
    let (impl, t) = new_ring_buffer_impl 3 100 45 (to 1) (to 2) empty_store in
    let (priority, u) = new_write_priority_impl 3 100 45 (to 2) empty_store in
    let bus = blocker_bus (new_blocker 100 45) in
    (t.cells 3 ≡ some bus)
    × (u.cells 3 ≡ some bus)
    × (impl.controller.child.dummy.sub.intrinsic ≡ to 2)
    × (priority.controller.child.dummy.sub.intrinsic ≡ to 2)
    × (impl.controller.child.blocked_signal ≡ to 3)
    × (priority.controller.child.blocked_signal ≡ to 3)
    × (impl.controller.child.begun_over ≡ some bus)
    × (priority.controller.child.begun_over ≡ none)
new_ring_buffer_impl-new_write_priority_impl_example =
    new_ring_buffer_impl-new_write_priority_impl 3 100 45 (to 1) (to 2) empty_store refl

new_mcu_rest-new_fpga_rest_example :
    let (host, t) = new_mcu_rest resolver_bus (to 8) empty_store in
    (client : Host) × (u : Store) × (b : SequentialBus) × (new_fpga_rest resolver_bus 3 0 ascending
        (to 9)
        t
      ≡ ok (client, u))
    × IsJoined resolver_bus host 0 (to 8)
    × IsJoined resolver_bus client (0 + 2) (to 9)
    × (u.cells (0 + 2) ≡ some (bus_serial_sequential b))
    × (b.write_start_id ≡ 0)
    × (b.signal.write_start_updated ≡ cleared)
    × ((a : ℕ) → a < 0 + 2 → u.cells a ≡ t.cells a)
new_mcu_rest-new_fpga_rest_example =
    new_mcu_rest-new_fpga_rest resolver_bus resolver_bus 3 0 ascending (to 8) (to 9) empty_store

-- The host's signal comes first, then a round of the loop, and then the client's.
abbrev asked_both : Session
asked_both = usr1_handler (run_session 1 (usr2_handler new_session))

asked_both-Happens : Happens true true asked_both
asked_both-Happens =
    signals_client false true _
      (goes_round false true _ (signals_host false false new_session begins))

run_session-finish_session_example :
    ((run_session 2 asked_both).host_delete ≡ true)
    × ((finish_session asked_both).deleted ≡ client_side ∷ host_side ∷ [])
run_session-finish_session_example = run_session-finish_session asked_both-Happens
