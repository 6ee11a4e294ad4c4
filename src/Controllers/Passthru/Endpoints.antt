-- ===== src/Controllers/Passthru/Endpoints.antt =====
-- The classes of impl/MCUFPGA.cpp over each other: a host over a resolver over an endpoint of the
-- protocol, each constructed in the constructor of the one above it.
use software_on_silicon.Base.{
  ℕ, suc, ◌+◌, ◌<◌, ◌≡◌, refl, sym, ap, ◌∙◌, arith, Option, some, Array, update, update_self,
  update_ne, true,
}
use software_on_silicon.Errors.{Outcome, ok, ◌>>=◌}
use software_on_silicon.Signals.{raised, cleared}
use software_on_silicon.Sync.{ResolverBus}
use software_on_silicon.Resolver.{SequentialBus, new_sequential_bus}
use software_on_silicon.Resolver.Rest.{ResolverStatus, rest_write, fill_write_start}
use software_on_silicon.Controllers.{
  Reference, unbound, to, async, serial_event, serial_sequential, Bus, serial_resolver_bus,
  bus_serial_sequential, Store, at, construct_at, new_member,
}
use software_on_silicon.Controllers.Passthru.{
  SerialPassthruEventDummy, new_passthru_dummy, PassthruClass, PassthruAsyncController,
  SerialPassthruSerialSequentialController, new_passthru_controller,
}

-- `SyncProcessor`
pub record SyncParts : Type 0 where
  pub dummy : SerialPassthruEventDummy
  pub s_bus : Reference

unfoldable pub new_sync_processor : Reference → Reference → SyncParts
unfolding new_passthru_dummy
new_sync_processor bus other = record {
  dummy = new_passthru_dummy serial_event bus other;
  s_bus = bus;
}

-- `BlockWiseTransfer`, under `Serial`, the crossovers, and `FPGA` and `MCU`, which add no reference.
-- A thread starts in their constructor: `begun_over` is what then is constructed where its bus lies.
pub record Endpoint : Type 0 where
  pub sync : SyncParts
  pub port : Reference
  pub begun_over : Option Bus

unfoldable pub new_endpoint : Reference → Reference → Store → Endpoint × Store
unfolding new_sync_processor at
new_endpoint bus other h =
    (record { sync = new_sync_processor bus other; port = other; begun_over = at h bus }, h)

-- `SequentialResolverDSP` under `FPGAResolver` and `MCUResolver`.
pub record ResolverImpl : Type 0 where
  pub controller : SerialPassthruSerialSequentialController Endpoint
  pub result : Reference
  pub begun_over : Option Bus

-- `MCURest` and `FPGARest` over `REST`, whose controller is its base. A thread starts in their
-- constructor: `begun_over` is what then is constructed where the bus of the host lies.
pub record Host : Type 0 where
  pub rest : PassthruAsyncController ResolverImpl
  pub begun_over : Option Bus

-- The statuses of a host as `ResolverStatus` constructs them.
abbrev new_statuses : Array ResolverStatus
new_statuses i = record { ready = raised; result = true }

-- `write<0>` of a host on what lies at its bus; no bus of another class does.
unfoldable pub write_on : ℕ → ℕ → Array ℕ → Reference → Option Bus → Store → Outcome Store
unfolding rest_write construct_at
write_on size origin memory (to place) (some (bus_serial_sequential b)) h =
    rest_write 0 size origin memory (record { bus = b; read_status = new_statuses }) >>= λ r.
    ok (construct_at place (bus_serial_sequential r.bus) h)
write_on size origin memory bus _ h = ok h

-- The member of `SequentialResolverDSP` that its constructor initialises, before and after.
pub record ResolverMembers : Type 0 where
  pub result : Reference

abbrev new_members : ResolverMembers
new_members = record { result = unbound }

unfoldable pub bind_result : Reference → ResolverMembers → ResolverMembers
bind_result bus m = record m { result = bus }

module _ (fresh : ResolverBus) where
  abbrev endpoint_class : PassthruClass Endpoint
  endpoint_class = record { bus_type = serial_resolver_bus fresh; make = new_endpoint }

  -- The base, over the signal of what `result` refers to at that moment.
  unfoldable pub construct_base :
      ResolverMembers
      → Reference
      → Store
      → SerialPassthruSerialSequentialController Endpoint × Store
  unfolding new_passthru_controller new_endpoint
  construct_base m other h =
      new_passthru_controller serial_sequential endpoint_class m.result other h

  -- The constructor of `SequentialResolverDSP`: first the base, then the member, whatever the order
  -- of its initialisers; then that of `FPGAResolver` or `MCUResolver`, which starts the thread.
  unfoldable pub new_resolver_impl : Reference → Reference → Store → ResolverImpl × Store
  unfolding construct_base bind_result
  new_resolver_impl bus other h =
      let (controller, t) = construct_base new_members other h in
      let members = bind_result bus new_members in
      (record { controller = controller; result = members.result; begun_over = at t bus }, t)

  abbrev resolver_class : PassthruClass ResolverImpl
  resolver_class = record {
    bus_type = bus_serial_sequential new_sequential_bus;
    make = new_resolver_impl;
  }

  -- The constructor of `REST`.
  unfoldable pub new_rest : Reference → Store → PassthruAsyncController ResolverImpl × Store
  unfolding new_resolver_impl new_passthru_controller
  new_rest uart h = new_passthru_controller async resolver_class tt uart h

  -- `MCURest`, which starts its thread.
  unfoldable pub new_mcu_rest : Reference → Store → Host × Store
  unfolding new_rest at
  new_mcu_rest uart h =
      let (rest, t) = new_rest uart h in (record { rest = rest; begun_over = at t rest.foreign }, t)

  -- `FPGARest`, which starts its thread and then writes its colour: `size` bytes from the address
  -- `origin`.
  unfoldable pub new_fpga_rest : ℕ → ℕ → Array ℕ → Reference → Store → Outcome (Host × Store)
  unfolding new_rest write_on at
  new_fpga_rest size origin memory uart h =
      let (rest, t) = new_rest uart h in
      let host : Host = record { rest = rest; begun_over = at t rest.foreign } in
      write_on size origin memory rest.foreign (at t rest.foreign) t >>= λ u. ok (host, u)

-- A host with its resolver and its endpoint, over the two buses that lie from `n` on.
pub record IsJoined (fresh : ResolverBus) (host : Host) (n : ℕ) (uart : Reference) : Type 0 where
  pub host_bus : host.rest.foreign ≡ to n
  pub resolver_result : host.rest.child.result ≡ to n
  pub resolver_bus : host.rest.child.controller.foreign ≡ to (suc n)
  pub endpoint_bus : host.rest.child.controller.child.sync.s_bus ≡ to (suc n)
  pub endpoint_signal : host.rest.child.controller.child.sync.dummy.sub.intrinsic ≡ to (suc n)
  pub port : host.rest.child.controller.child.port ≡ uart
  pub others :
      (host.rest.other ≡ uart)
      × (host.rest.child.controller.other ≡ uart)
      × (host.rest.child.controller.child.sync.dummy.other ≡ uart)
  pub endpoint_begun :
      host.rest.child.controller.child.begun_over ≡ some (serial_resolver_bus fresh)
  pub resolver_begun : host.rest.child.begun_over ≡ some (bus_serial_sequential new_sequential_bus)
  pub host_begun : host.begun_over ≡ some (bus_serial_sequential new_sequential_bus)

new_mcu_rest-IsJoined :
    (fresh : ResolverBus) (uart : Reference) (h : Store)
    → let (host, t) = new_mcu_rest fresh uart h in
      IsJoined fresh host h.next uart
      × (t.next ≡ suc (suc h.next))
      × (t.cells h.next ≡ some (bus_serial_sequential new_sequential_bus))
      × (t.cells (suc h.next) ≡ some (serial_resolver_bus fresh))
      × ((a : ℕ) → a < h.next → t.cells a ≡ h.cells a)
unfolding new_mcu_rest new_member at
new_mcu_rest-IsJoined fresh uart h =
    let below = update h.cells h.next (some (bus_serial_sequential new_sequential_bus)) in
    let resolver_lies = update_self below (suc h.next) (some (serial_resolver_bus fresh)) in
    let host_lies =
      update_ne below (suc h.next) h.next (some (serial_resolver_bus fresh)) (λ e. omega arith)
      ∙ update_self h.cells h.next (some (bus_serial_sequential new_sequential_bus)) in
    (
      record {
        host_bus = refl;
        resolver_result = refl;
        resolver_bus = refl;
        endpoint_bus = refl;
        endpoint_signal = refl;
        port = refl;
        others = (refl, refl, refl);
        endpoint_begun = resolver_lies;
        resolver_begun = host_lies;
        host_begun = host_lies;
      },
      refl,
      host_lies,
      resolver_lies,
      λ a low.
          update_ne below (suc h.next) a _ (λ e. omega arith)
          ∙ update_ne h.cells h.next a _ (λ e. omega arith),
    )

-- The new bus of a host with the request to take `size` bytes for object 0.
abbrev asked : ℕ → ℕ → Array ℕ → SequentialBus
asked size origin memory =
    let new = new_sequential_bus in
    record new {
      write_start_id = 0;
      write_start_out = fill_write_start size 0 (memory origin) new.write_start_out;
      signal = record (new.signal) {
        write_start_acknowledge = raised;
        write_start_updated = cleared;
      };
    }

write_on_asked :
    (size origin : ℕ) (memory : Array ℕ) (place : ℕ) (cell : Option Bus) (t : Store)
    → cell ≡ some (bus_serial_sequential new_sequential_bus)
    → write_on size origin memory (to place) cell t
      ≡ ok (construct_at place (bus_serial_sequential (asked size origin memory)) t)
unfolding write_on rest_write new_sequential_bus
write_on_asked size origin memory place cell t e = rw e refl

new_fpga_rest-IsJoined :
    (fresh : ResolverBus) (size origin : ℕ) (memory : Array ℕ) (uart : Reference) (h : Store)
    → (client : Host) × (t : Store) × (b : SequentialBus) × (new_fpga_rest fresh size origin memory
          uart h
        ≡ ok (client, t))
      × IsJoined fresh client h.next uart
      × (t.cells h.next ≡ some (bus_serial_sequential b))
      × (b.write_start_id ≡ 0)
      × (b.signal.write_start_updated ≡ cleared)
      × ((a : ℕ) → a < h.next → t.cells a ≡ h.cells a)
unfolding new_mcu_rest new_fpga_rest construct_at new_sequential_bus at
new_fpga_rest-IsJoined fresh size origin memory uart h =
    let (client, t) = new_mcu_rest fresh uart h in
    let (joined, next, lies, below, kept) = new_mcu_rest-IsJoined fresh uart h in
    (
      client,
      construct_at h.next (bus_serial_sequential (asked size origin memory)) t,
      asked size origin memory,
      ap (λ (m : Outcome Store). m >>= λ u. ok (client, u))
          (write_on_asked size origin memory h.next (t.cells h.next) t lies),
      joined,
      update_self t.cells h.next _,
      refl,
      refl,
      λ a low. update_ne t.cells h.next a _ (λ e. omega arith) ∙ kept a low,
    )

-- The two sides as the program constructs them, the microcontroller's and then the FPGA's, each over
-- its own port: each side's resolver and host have one bus between them and its endpoint and
-- resolver another, four buses in all; every class on a side has the port of that side; the
-- threads of the endpoint, of the resolver and of the host each start when the bus that it uses has
-- been constructed, the host's before there is a request on it. The FPGA's constructor returns with
-- the request to send object 0 on its bus, and changes nothing of the other side.
pub new_mcu_rest-new_fpga_rest :
    (theirs ours : ResolverBus) (size origin : ℕ) (memory : Array ℕ) (mcubus fpgabus : Reference)
    (h : Store)
    → let (host, t) = new_mcu_rest theirs mcubus h in
      (client : Host) × (u : Store) × (b : SequentialBus) × (new_fpga_rest ours size origin memory
          fpgabus t
        ≡ ok (client, u))
      × IsJoined theirs host h.next mcubus
      × IsJoined ours client (h.next + 2) fpgabus
      × (u.cells (h.next + 2) ≡ some (bus_serial_sequential b))
      × (b.write_start_id ≡ 0)
      × (b.signal.write_start_updated ≡ cleared)
      × ((a : ℕ) → a < h.next + 2 → u.cells a ≡ t.cells a)
new_mcu_rest-new_fpga_rest theirs ours size origin memory mcubus fpgabus h =
    let (host, t) = new_mcu_rest theirs mcubus h in
    let (joined, next, lies, below, kept) = new_mcu_rest-IsJoined theirs mcubus h in
    let (client, u, b, e, joined', lies', id, asked, kept') =
      new_fpga_rest-IsJoined ours size origin memory fpgabus t in
    let two : t.next ≡ h.next + 2 = omega (arith, next) in
    (
      client,
      u,
      b,
      e,
      joined,
      rw (sym two) joined',
      rw (sym two) lies',
      id,
      asked,
      λ a low. kept' a (omega (arith, two)),
    )
