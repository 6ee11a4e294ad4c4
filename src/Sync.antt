-- ===== src/Sync.antt =====
-- `SyncProcessor` of include/software-on-silicon/ByteWiseTransfer.hpp over the resolver bus of
-- SerialNotifier.hpp: the switches through which the protocol tells the resolver what became of
-- each object, and the object descriptors that both sides share under a lock.
pub mod Laws
use software_on_silicon.Base.{
  ℕ, zero, suc, ◌+◌, ◌-◌, Bool, true, false, not, ◌&&◌, ltb, ◌==◌, if◌then◌else◌, Array, update,
}
use software_on_silicon.Errors.{Outcome, ok, spin, ◌>>=◌}
use software_on_silicon.Signals.{Flag, test_and_set, cleared, raised, Notify, new_notify}

-- `NUM_IDS`: 64 less the five upper states and the lower one.
abbrev pub num_ids : ℕ
num_ids = 64 - 5 - 1

pub record ResolverSwitch : Type 0 where
  pub read_op : Notify
  pub read_ack : Flag
  pub read_fault : Flag
  pub write_op : Notify
  pub write_ack : Flag
  pub write_fault : Flag
  pub sync_me : Flag

unfoldable pub new_resolver_switch : ResolverSwitch
unfolding new_notify
new_resolver_switch = record {
  read_op = new_notify;
  read_ack = raised;
  read_fault = raised;
  write_op = new_notify;
  write_ack = raised;
  write_fault = raised;
  sync_me = raised;
}

-- `DMADescriptor`: the address of an object and its size; `nullptr` is address 0.
pub record DmaDescriptor : Type 0 where
  pub obj : ℕ
  pub obj_size : ℕ

pub record DescriptorHelper : Type 0 where
  pub arr : Array DmaDescriptor
  pub count : ℕ

-- `SerialResolverBus`: the switch board with its two flags, the descriptors, and the memory in
-- which the objects lie, a byte at each address.
pub record ResolverBus : Type 0 where
  pub switches : Array ResolverSwitch
  pub trigger_resolve : Flag
  pub descriptors_updated : Flag
  pub descriptors : DescriptorHelper
  pub memory : Array ℕ

-- `SyncProcessor`: the bus by reference, a copy of its descriptors, and the reads in progress.
pub record Sync : Type 0 where
  pub bus : ResolverBus
  pub descriptors : DescriptorHelper
  pub read_started_id : Array Bool

abbrev pub put_switch : Sync → ℕ → ResolverSwitch → Sync
put_switch s id sw = record s { bus = record (s.bus) { switches = update s.bus.switches id sw } }

abbrev pub put_lock : Sync → Flag → Sync
put_lock s f = record s { bus = record (s.bus) { descriptors_updated = f } }

-- `while (descriptorsUpdated().test_and_set()) yield();`
unfoldable pub lock_descriptors : Sync → Outcome Sync
lock_descriptors s =
    let (held, f) = test_and_set s.bus.descriptors_updated in
    if held then spin else ok (put_lock s f)

-- `descriptorsUpdated().clear();`
unfoldable pub unlock_descriptors : Sync → Sync
unlock_descriptors s = put_lock s cleared

-- A request is looked at by setting its flag and clearing it again.
unfoldable pub check_sync : Sync → ℕ → Bool × Sync
check_sync s id =
    let sw = s.bus.switches id in
    let (idle, f) = test_and_set sw.sync_me in
    if idle
    then (false, put_switch s id (record sw { sync_me = f }))
    else (true, put_switch s id (record sw { sync_me = cleared }))

-- The loop of `emit_init`: `n` rounds from index `i` on.
unfoldable pub copy_descriptors :
    ℕ → ℕ → Array DmaDescriptor → Array DmaDescriptor → Array DmaDescriptor
copy_descriptors zero i source target = target
copy_descriptors (suc n) i source target =
    copy_descriptors n (i + 1) source
      (update target i (record { obj = (source i).obj; obj_size = (source i).obj_size }))

unfoldable pub emit_init : Sync → Outcome Sync
unfolding lock_descriptors unlock_descriptors copy_descriptors
emit_init s = do
  t ← lock_descriptors s
  let theirs = t.bus.descriptors
  let arr = copy_descriptors theirs.count 0 theirs.arr t.descriptors.arr
  ok (unlock_descriptors (record t { descriptors = record { arr = arr; count = theirs.count } }))

-- One object of `emit_interrupted`.
unfoldable pub interrupt_read : Sync → ℕ → Sync
interrupt_read s i =
    if s.read_started_id i
    then (let sw = s.bus.switches i in
        let t = put_switch s i (record sw {
          read_op = record { notify = raised };
          read_fault = cleared;
          read_ack = cleared;
        }) in
        record t { read_started_id = update s.read_started_id i false })
    else s

unfoldable pub interrupt_reads : ℕ → ℕ → Sync → Sync
unfolding interrupt_read
interrupt_reads zero i s = s
interrupt_reads (suc n) i s = interrupt_reads n (i + 1) (interrupt_read s i)

unfoldable pub emit_interrupted : Sync → Sync
emit_interrupted s = interrupt_reads num_ids 0 s

unfoldable pub emit_readlocked : Sync → ℕ → Sync
emit_readlocked s id =
    let sw = s.bus.switches id in
    let (idle, f) = test_and_set sw.sync_me in
    let opened = record sw { read_op = record { notify = cleared }; sync_me = f } in
    let canceled = if idle then opened else record opened {
      write_op = record { notify = raised };
      write_fault = cleared;
      write_ack = cleared;
    } in
    let t = put_switch s id canceled in
    record t { read_started_id = update s.read_started_id id true }

unfoldable pub emit_transfer : Sync → ℕ → Sync
emit_transfer s id =
    put_switch s id
      (record (s.bus.switches id) { write_op = record { notify = cleared }; sync_me = raised })

unfoldable pub emit_received : Sync → ℕ → Sync
emit_received s id =
    let t =
      put_switch s id
        (record (s.bus.switches id) { read_op = record { notify = raised }; read_ack = cleared }) in
    record t { read_started_id = update s.read_started_id id false }

unfoldable pub emit_sent : Sync → ℕ → Sync
emit_sent s id =
    put_switch s id
      (record (s.bus.switches id) { write_op = record { notify = raised }; write_ack = cleared })

unfoldable pub trigger_resolve : Sync → Sync
trigger_resolve s = record s { bus = record (s.bus) { trigger_resolve = cleared } }
