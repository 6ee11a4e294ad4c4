-- ===== src/Controllers/Passthru/Buffers.antt =====
-- `ReaderImpl`, `RingBufferImpl` and `WritePriorityImpl` of impl/RingToMemory.cpp and
-- impl/MemoryController.cpp: in which order their bases are constructed.
use software_on_silicon.Base.{ℕ, ◌≡◌, refl, Option, none, some, update_self}
use software_on_silicon.Memory.{new_blocker}
use software_on_silicon.Controllers.{
  Reference, to, async, simple, event, Bus, no_bus, blocker_bus, Store, at, construct_at,
  EventDummy, new_dummy,
}
use software_on_silicon.Controllers.Passthru.{
  PassthruClass, DoublePassthruSimpleController, DoublePassthruAsyncController,
  new_double_passthru_controller,
}

-- `ReaderImpl` over `Reader`: its signal, the blocker's signal, and what is constructed where the
-- blocker lies when its thread starts, which is in its constructor.
pub record ReaderImpl : Type 0 where
  pub dummy : EventDummy
  pub blocked_signal : Reference
  pub begun_over : Option Bus

unfoldable pub new_reader_impl : Reference → Reference → Store → ReaderImpl × Store
unfolding new_dummy at
new_reader_impl outside blockerbus h = (
  record {
    dummy = new_dummy event outside;
    blocked_signal = blockerbus;
    begun_over = at h blockerbus;
  },
  h,
)

abbrev reader_class : PassthruClass ReaderImpl
reader_class = record { bus_type = no_bus; make = new_reader_impl }

-- `RingBufferImpl`: `RingBuffer` over the signal of the ring, `RingBufferTaskImpl` with the blocker,
-- which it fills with `blank`, then the controller.
pub record RingBufferImpl : Type 0 where
  pub ring_signal : Reference
  pub controller : DoublePassthruSimpleController ReaderImpl

-- The members lie at `place`.
unfoldable pub new_ring_buffer_impl :
    ℕ → ℕ → ℕ → Reference → Reference → Store → RingBufferImpl × Store
unfolding construct_at new_blocker new_double_passthru_controller new_reader_impl
new_ring_buffer_impl place size blank ring reader h =
    let t = construct_at place (blocker_bus (new_blocker size blank)) h in
    let (controller, u) =
      new_double_passthru_controller simple reader_class ring reader (to place) t in
    (record { ring_signal = ring; controller = controller }, u)

-- `WritePriorityImpl`: the controller is its first base, `NonBlockingWriteTask` with the blocker its
-- second. The counter and the light are those of `WritePriority` in Memory/Priority.antt.
pub record WritePriorityImpl : Type 0 where
  pub controller : DoublePassthruAsyncController ReaderImpl

unfoldable pub new_write_priority_impl : ℕ → ℕ → ℕ → Reference → Store → WritePriorityImpl × Store
unfolding construct_at new_blocker new_double_passthru_controller new_reader_impl
new_write_priority_impl place size blank reader h =
    let (controller, t) =
      new_double_passthru_controller async reader_class tt reader (to place) h in
    (
      record { controller = controller },
      construct_at place (blocker_bus (new_blocker size blank)) t,
    )

-- Both controllers hand their reader the bus of the client and their own blocker, and leave the
-- blocker constructed over a blank memory. When the thread of its reader starts, the blocker of
-- `RingBufferImpl` is constructed; that of `WritePriorityImpl`, whose storage holds nothing before,
-- still is not.
pub new_ring_buffer_impl-new_write_priority_impl :
    (place size blank : ℕ) (ring reader : Reference) (h : Store)
    → h.cells place ≡ none
    → let (impl, t) = new_ring_buffer_impl place size blank ring reader h in
      let (priority, u) = new_write_priority_impl place size blank reader h in
      let bus = blocker_bus (new_blocker size blank) in
      (t.cells place ≡ some bus)
      × (u.cells place ≡ some bus)
      × (impl.controller.child.dummy.sub.intrinsic ≡ reader)
      × (priority.controller.child.dummy.sub.intrinsic ≡ reader)
      × (impl.controller.child.blocked_signal ≡ to place)
      × (priority.controller.child.blocked_signal ≡ to place)
      × (impl.controller.child.begun_over ≡ some bus)
      × (priority.controller.child.begun_over ≡ none)
unfolding new_ring_buffer_impl new_write_priority_impl
new_ring_buffer_impl-new_write_priority_impl place size blank ring reader h empty =
    let done = update_self h.cells place (some (blocker_bus (new_blocker size blank))) in
    (done, done, refl, refl, refl, refl, done, empty)
