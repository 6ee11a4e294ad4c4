-- ===== src/Resolver/Contract.antt =====
-- What `SyncProcessor` reports on a switch is what the resolver makes of it.
use software_on_silicon.Base.{
  ℕ, zero, suc, ◌+◌, ◌<◌, ◌≡◌, ◌≢◌, refl, ap, ◌∙◌, arith, true, false, Array, update,
}
use software_on_silicon.Errors.{ok, aborted, Severity}
use software_on_silicon.Errors.Code.{ErrorCode}
use software_on_silicon.Sync.{
  Sync, ResolverSwitch, num_ids, emit_received, emit_sent, emit_readlocked, interrupt_read,
}
use software_on_silicon.Resolver.{
  Resolver, resolve, put_resolver_switch, take_write_start, store_write_start,
}

-- The resolver over the bus that the protocol has left behind.
abbrev pub over_bus : Resolver → Sync → Resolver
over_bus r s = record r { bus = s.bus }

-- A switch on which nothing is reported.
pub record IsSettled (sw : ResolverSwitch) : Type 0 where
  pub read_told : sw.read_ack ≡ true
  pub read_fine : sw.read_fault ≡ true
  pub write_told : sw.write_ack ≡ true
  pub write_fine : sw.write_fault ≡ true

-- A report is taken once: on a switch on which nothing is reported `resolve` changes nothing.
pub resolve-IsSettled :
    (id : ℕ) (r : Resolver) → IsSettled (r.bus.switches id) → resolve id r ≡ ok r
unfolding resolve
resolve-IsSettled id r v = ground (arith, v.read_told, v.write_told)

-- The resolver once it has taken the report of a read, and of a write.
abbrev read_taken : ℕ → Resolver → Resolver
read_taken id u =
    record (put_resolver_switch u id
      (record (u.bus.switches id) { read_ack = true; read_fault = true })) {
        result = record (u.result) { read_end_id = id };
        read_end_queued = true;
      }

abbrev write_taken : ℕ → Resolver → Resolver
write_taken id u =
    record (put_resolver_switch u id
      (record (u.bus.switches id) { write_ack = true; write_fault = true })) {
        result = record (u.result) { write_end_id = id };
        write_end_queued = true;
        pending_write_request = update u.pending_write_request id false;
      }

take_read :
    (id : ℕ) (u : Resolver)
    → (u.bus.switches id).read_ack ≡ false
    → (u.bus.switches id).read_fault ≡ true
    → (u.bus.switches id).write_ack ≡ true
    → resolve id u ≡ ok (read_taken id u)
unfolding resolve
take_read id u told fine quiet = ground (arith, told, fine, quiet)

take_write :
    (id : ℕ) (u : Resolver)
    → (u.bus.switches id).read_ack ≡ true
    → (u.bus.switches id).write_ack ≡ false
    → (u.bus.switches id).write_fault ≡ true
    → resolve id u ≡ ok (write_taken id u)
unfolding resolve
take_write id u quiet told fine = ground (arith, told, fine, quiet)

take_fault :
    (id : ℕ) (u : Resolver)
    → (u.bus.switches id).read_ack ≡ false
    → (u.bus.switches id).read_fault ≡ false
    → resolve id u ≡ aborted Severity.runtime ErrorCode.service_interrupted_by_com_shutdown
unfolding resolve
take_fault id u told fault = ground (arith, told, fault)

take_cancel :
    (id : ℕ) (u : Resolver)
    → (u.bus.switches id).read_ack ≡ true
    → (u.bus.switches id).write_ack ≡ false
    → (u.bus.switches id).write_fault ≡ false
    → resolve id u ≡ aborted Severity.runtime ErrorCode.object_write_canceled_by_incoming_read
unfolding resolve
take_cancel id u quiet told fault = ground (arith, quiet, told, fault)

-- What the protocol reports of an object on which nothing was reported before: a received object
-- becomes a read end for the host, a sent object a write end that ends its pending request, a read
-- lock over a requested write is reported as a canceled write, an interrupted read as an
-- interrupted service; and after a read end or a write end nothing is reported any more.
pub resolve-reports :
    (id : ℕ) (r : Resolver) (s : Sync)
    → IsSettled (s.bus.switches id)
    → ((t : Resolver) × (resolve id (over_bus r (emit_received s id)) ≡ ok t)
        × (t.read_end_queued ≡ true)
        × (t.result.read_end_id ≡ id)
        × IsSettled (t.bus.switches id))
      × ((t : Resolver) × (resolve id (over_bus r (emit_sent s id)) ≡ ok t)
          × (t.write_end_queued ≡ true)
          × (t.result.write_end_id ≡ id)
          × (t.pending_write_request id ≡ false)
          × IsSettled (t.bus.switches id))
      × ((s.bus.switches id).sync_me ≡ false
          → resolve id (over_bus r (emit_readlocked s id))
            ≡ aborted Severity.runtime ErrorCode.object_write_canceled_by_incoming_read)
      × (s.read_started_id id ≡ true
          → resolve id (over_bus r (interrupt_read s id))
            ≡ aborted Severity.runtime ErrorCode.service_interrupted_by_com_shutdown)
unfolding emit_received emit_sent emit_readlocked interrupt_read
resolve-reports id r s v =
    let after_read = over_bus r (emit_received s id) in
    let after_write = over_bus r (emit_sent s id) in
    (
      (
        read_taken id after_read,
        take_read id after_read (ground arith) (ground (arith, v.read_fine))
            (ground (arith, v.write_told)),
        refl,
        refl,
        record {
          read_told = ground arith;
          read_fine = ground arith;
          write_told = ground (arith, v.write_told);
          write_fine = ground (arith, v.write_fine);
        },
      ),
      (
        write_taken id after_write,
        take_write id after_write (ground (arith, v.read_told)) (ground arith)
            (ground (arith, v.write_fine)),
        refl,
        refl,
        ground arith,
        record {
          read_told = ground (arith, v.read_told);
          read_fine = ground (arith, v.read_fine);
          write_told = ground arith;
          write_fine = ground arith;
        },
      ),
      λ asked.
          take_cancel id (over_bus r (emit_readlocked s id)) (ground (arith, v.read_told))
            (ground (arith, asked)) (ground (arith, asked)),
      λ started.
          take_fault id (over_bus r (interrupt_read s id)) (ground (arith, started))
            (ground (arith, started)),
    )

store_write_start_others :
    (n i obj a : ℕ) (buffer memory : Array ℕ)
    → a ≢ obj
    → store_write_start n i obj buffer memory a ≡ memory a
unfolding store_write_start
store_write_start_others zero i obj a buffer memory ne = refl
store_write_start_others (suc n) i obj a buffer memory ne =
    store_write_start_others n (i + 1) obj a buffer (update memory obj (buffer i)) ne
    ∙ ground (arith, ne)

store_write_start_last :
    (n i obj : ℕ) (buffer memory : Array ℕ)
    → store_write_start (suc n) i obj buffer memory obj ≡ buffer (i + n)
unfolding store_write_start
store_write_start_last zero i obj buffer memory = ground arith
store_write_start_last (suc n) i obj buffer memory =
    let at : i + 1 + n ≡ i + suc n = omega arith in
    store_write_start_last n (i + 1) obj buffer (update memory obj (buffer i)) ∙ ap buffer at

-- The resolver once it has taken a write request.
abbrev request_taken : Resolver → Array ℕ → Resolver
request_taken r memory =
    let id = r.result.write_start_id in
    record r {
      bus = record (r.bus) {
        descriptors_updated = false;
        memory = memory;
        switches = update r.bus.switches id (record (r.bus.switches id) { sync_me = false });
      };
      pending_write_request = update r.pending_write_request id true;
      result = record (r.result) {
        signal = record (r.result.signal) { write_start_acknowledge = false };
      };
    }

-- A write request of the host for an object of some bytes, with no request pending and the lock
-- free, asks the protocol for a transfer, notes the request as pending and acknowledges it. Of the
-- bytes in the write buffer only the last reaches the object, at its address, and all other memory
-- stays as it was.
pub take_write_start_lem :
    (r : Resolver) (n : ℕ)
    → let id = r.result.write_start_id in
      let place = r.bus.descriptors.arr id in
      id < num_ids
      → r.pending_write_request id ≡ false
      → r.bus.descriptors_updated ≡ false
      → place.obj_size ≡ suc n
      → (t : Resolver) × (take_write_start r ≡ ok t)
        × ((t.bus.switches id).sync_me ≡ false)
        × (t.pending_write_request id ≡ true)
        × (t.result.signal.write_start_acknowledge ≡ false)
        × (t.bus.descriptors_updated ≡ false)
        × (t.bus.memory place.obj ≡ r.result.write_start_out n)
        × ((a : ℕ) → a ≢ place.obj → t.bus.memory a ≡ r.bus.memory a)
unfolding take_write_start
take_write_start_lem r n known none_pending free size =
    let id = r.result.write_start_id in
    let place = r.bus.descriptors.arr id in
    let stored =
      store_write_start place.obj_size 0 place.obj r.result.write_start_out r.bus.memory in
    let zeroth : 0 + n ≡ n = omega arith in
    (
      request_taken r stored,
      ground (arith, known, none_pending, free),
      ground arith,
      ground arith,
      refl,
      refl,
      rw size (
          store_write_start_last n 0 place.obj r.result.write_start_out r.bus.memory
          ∙ ap r.result.write_start_out zeroth),
      λ a ne.
          store_write_start_others place.obj_size 0 place.obj a r.result.write_start_out
            r.bus.memory ne,
    )
