-- ===== src/Resolver.antt =====
-- `SequentialResolverDSP` and `REST` of include/software-on-silicon/SerialNotifier.hpp: the resolver
-- turns what the protocol reports on the switches into commands for the host, and the host's write
-- requests into requests on the switches.
pub mod Contract
pub mod Rest
pub mod Echo
use software_on_silicon.Base.{
  ℕ, zero, suc, ◌+◌, Bool, true, false, not, ltb, if◌then◌else◌, Array, update,
}
use software_on_silicon.Errors.{Outcome, ok, spin, logic_error, runtime_error, ◌>>=◌}
use software_on_silicon.Errors.Code.{ErrorCode}
use software_on_silicon.Signals.{Flag, test_and_set, cleared, raised}
use software_on_silicon.Sync.{ResolverBus, ResolverSwitch, num_ids}

-- `SerialSequential`
pub record SequentialFlags : Type 0 where
  pub read_start_updated : Flag
  pub read_start_acknowledge : Flag
  pub read_end_updated : Flag
  pub read_end_acknowledge : Flag
  pub read_failed : Flag
  pub write_start_updated : Flag
  pub write_start_acknowledge : Flag
  pub write_end_updated : Flag
  pub write_end_acknowledge : Flag
  pub write_failed : Flag
  pub write_in_progress : Flag

-- `BusSerialSequential`, with the ids of `ComId` that its two users store.
pub record SequentialBus : Type 0 where
  pub signal : SequentialFlags
  pub read_end_id : ℕ
  pub write_start_id : ℕ
  pub write_end_id : ℕ
  pub read_end_in : Array ℕ
  pub write_start_out : Array ℕ

unfoldable pub new_sequential_flags : SequentialFlags
new_sequential_flags = record {
  read_start_updated = raised;
  read_start_acknowledge = raised;
  read_end_updated = raised;
  read_end_acknowledge = cleared;
  read_failed = raised;
  write_start_updated = raised;
  write_start_acknowledge = cleared;
  write_end_updated = raised;
  write_end_acknowledge = raised;
  write_failed = raised;
  write_in_progress = raised;
}

unfoldable pub new_sequential_bus : SequentialBus
unfolding new_sequential_flags
new_sequential_bus = record {
  signal = new_sequential_flags;
  read_end_id = num_ids;
  write_start_id = num_ids;
  write_end_id = num_ids;
  read_end_in = λ i. 0;
  write_start_out = λ i. 0;
}

-- `SequentialResolverDSP`: the bus of the protocol below it and the bus of the host above it.
pub record Resolver : Type 0 where
  pub bus : ResolverBus
  pub result : SequentialBus
  pub write_end_queued : Bool
  pub read_end_queued : Bool
  pub pending_write_request : Array Bool

abbrev pub put_resolver_switch : Resolver → ℕ → ResolverSwitch → Resolver
put_resolver_switch r id sw = record r {
  bus = record (r.bus) { switches = update r.bus.switches id sw };
}

-- The half of `resolve` that looks at the read.
unfoldable pub resolve_read : ℕ → Resolver → Outcome Resolver
resolve_read id r =
    let sw = r.bus.switches id in
    let (idle, ack) = test_and_set sw.read_ack in
    if not idle
    then (let (fine, fault) = test_and_set sw.read_fault in
        if fine
        then (let t = put_resolver_switch r id (record sw { read_ack = ack; read_fault = fault }) in
            ok (record t {
              result = record (r.result) { read_end_id = id };
              read_end_queued = true;
            }))
        else runtime_error ErrorCode.service_interrupted_by_com_shutdown)
    else ok r

-- The half that looks at the write.
unfoldable pub resolve_write : ℕ → Resolver → Outcome Resolver
resolve_write id r =
    let sw = r.bus.switches id in
    let (idle, ack) = test_and_set sw.write_ack in
    if not idle
    then (let (fine, fault) = test_and_set sw.write_fault in
        if fine
        then (let t =
              put_resolver_switch r id (record sw { write_ack = ack; write_fault = fault }) in
            ok (record t {
              result = record (r.result) { write_end_id = id };
              write_end_queued = true;
              pending_write_request = update r.pending_write_request id false;
            }))
        else runtime_error ErrorCode.object_write_canceled_by_incoming_read)
    else ok r

unfoldable pub resolve : ℕ → Resolver → Outcome Resolver
unfolding resolve_read resolve_write
resolve id r = resolve_read id r >>= λ t. resolve_write id t

-- The loop over the descriptors: `n` rounds from id `i` on.
unfoldable pub resolve_all : ℕ → ℕ → Resolver → Outcome Resolver
resolve_all zero i r = ok r
resolve_all (suc n) i r = resolve i r >>= λ t. resolve_all n (i + 1) t

unfoldable pub lock_bus : Resolver → Outcome Resolver
lock_bus r =
    let (held, f) = test_and_set r.bus.descriptors_updated in
    if held then spin else ok (record r { bus = record (r.bus) { descriptors_updated = f } })

unfoldable pub unlock_bus : Resolver → Resolver
unlock_bus r = record r { bus = record (r.bus) { descriptors_updated = cleared } }

-- `n` rounds of the loop that fills the read buffer from index `i` on. Each stores the byte at the
-- object's address.
unfoldable pub fill_read_end : ℕ → ℕ → ℕ → Array ℕ → Array ℕ → Array ℕ
fill_read_end zero i obj memory buffer = buffer
fill_read_end (suc n) i obj memory buffer =
    fill_read_end n (i + 1) obj memory (update buffer i (memory obj))

-- `n` rounds of the loop that stores the write buffer from index `i` on. Each stores its byte at the
-- object's address.
unfoldable pub store_write_start : ℕ → ℕ → ℕ → Array ℕ → Array ℕ → Array ℕ
store_write_start zero i obj buffer memory = memory
store_write_start (suc n) i obj buffer memory =
    store_write_start n (i + 1) obj buffer (update memory obj (buffer i))

-- The read end of an object goes to the host.
unfoldable pub send_read_end : Resolver → Outcome Resolver
unfolding lock_bus unlock_bus fill_read_end
send_read_end r =
    let (held, f) = test_and_set r.result.signal.read_end_acknowledge in
    if held
    then spin
    else (let id = r.result.read_end_id in
        let place = r.bus.descriptors.arr id in
        let filled =
          if ltb id num_ids
          then (lock_bus r >>= λ t. ok (record (unlock_bus t) {
            result = record (t.result) {
              read_end_in =
                  fill_read_end place.obj_size 0 place.obj t.bus.memory t.result.read_end_in;
            };
          }))
          else ok r in
        filled >>= λ t. ok (record t {
          result = record (t.result) {
            signal = record (t.result.signal) {
              read_end_acknowledge = f;
              read_end_updated = cleared;
            };
          };
          read_end_queued = false;
        }))

-- A write request of the host.
unfoldable pub take_write_start : Resolver → Outcome Resolver
unfolding lock_bus unlock_bus store_write_start
take_write_start r =
    let id = r.result.write_start_id in
    let place = r.bus.descriptors.arr id in
    if ltb id num_ids
    then (if not (r.pending_write_request id)
        then (lock_bus r >>= λ t.
            let stored =
              store_write_start place.obj_size 0 place.obj t.result.write_start_out t.bus.memory in
            let u = unlock_bus (record t { bus = record (t.bus) { memory = stored } }) in
            let v = put_resolver_switch u id (record (u.bus.switches id) { sync_me = cleared }) in
            ok (record v {
              pending_write_request = update v.pending_write_request id true;
              result = record (v.result) {
                signal = record (v.result.signal) { write_start_acknowledge = cleared };
              };
            }))
        else runtime_error ErrorCode.pending_write_request)
    else logic_error ErrorCode.illegal_write_start_id

-- The three parts of `SequentialResolverDSP::event_loop`.
unfoldable pub resolve_triggered : Resolver → Outcome Resolver
unfolding resolve_all
resolve_triggered r =
    let (idle, f) = test_and_set r.bus.trigger_resolve in
    let t = record r { bus = record (r.bus) { trigger_resolve = f } } in
    if not idle then resolve_all t.bus.descriptors.count 0 t else ok t

unfoldable pub answer_read : Resolver → Outcome Resolver
unfolding send_read_end
answer_read r = if r.read_end_queued then send_read_end r else ok r

unfoldable pub answer_write : Resolver → Outcome Resolver
unfolding take_write_start
answer_write r =
    let (idle, f) = test_and_set r.result.signal.write_start_updated in
    let t = record r {
      result = record (r.result) { signal = record (r.result.signal) { write_start_updated = f } };
    } in
    if not idle then take_write_start t else ok t

unfoldable pub resolver_loop : Resolver → Outcome Resolver
unfolding resolve_triggered answer_read answer_write
resolver_loop r = resolve_triggered r >>= λ t. answer_read t >>= λ u. answer_write u
