-- ===== src/Tests/Resolvers.antt =====
-- The resolver on the samples.
use software_on_silicon.Base.{ℕ, suc, ◌≡◌, ◌≢◌, refl, arith, true, false}
use software_on_silicon.Errors.{ok, aborted, Severity}
use software_on_silicon.Errors.Code.{ErrorCode}
use software_on_silicon.Sync.{
  Sync, new_resolver_switch, emit_received, emit_sent, emit_readlocked, interrupt_read,
}
use software_on_silicon.Resolver.{
  Resolver, new_sequential_bus, new_sequential_flags, resolve, answer_write, answer_read,
}
use software_on_silicon.Resolver.Rest.{
  Rest, rest_write, rest_loop, answer_write-rest_write, rest_loop-answer_read,
}
use software_on_silicon.Resolver.Echo.{fpga_rest_loop, fpga_rest_loop-answer_write}
use software_on_silicon.Resolver.Contract.{IsSettled, over_bus, resolve-reports}
use software_on_silicon.Tests.Samples.{sync_over, ascending, blank, nothing, first_only}

-- The host asks for the first object to be written.
abbrev resolver : Resolver
resolver = record {
  bus = (sync_over blank).bus;
  result = record new_sequential_bus { write_start_id = 0; write_start_out = ascending };
  write_end_queued = false;
  read_end_queued = false;
  pending_write_request = nothing;
}

abbrev reading : Sync
reading = record (sync_over blank) { read_started_id = first_only }

settled : IsSettled (reading.bus.switches 0)
unfolding new_resolver_switch
settled = record { read_told = refl; read_fine = refl; write_told = refl; write_fine = refl }

resolve-reports_example :
    ((t : Resolver) × (resolve 0 (over_bus resolver (emit_received reading 0)) ≡ ok t)
      × (t.read_end_queued ≡ true)
      × (t.result.read_end_id ≡ 0)
      × IsSettled (t.bus.switches 0))
    × ((t : Resolver) × (resolve 0 (over_bus resolver (emit_sent reading 0)) ≡ ok t)
        × (t.write_end_queued ≡ true)
        × (t.result.write_end_id ≡ 0)
        × (t.pending_write_request 0 ≡ false)
        × IsSettled (t.bus.switches 0))
    × ((reading.bus.switches 0).sync_me ≡ false
        → resolve 0 (over_bus resolver (emit_readlocked reading 0))
          ≡ aborted Severity.runtime ErrorCode.object_write_canceled_by_incoming_read)
    × (reading.read_started_id 0 ≡ true
        → resolve 0 (over_bus resolver (interrupt_read reading 0))
          ≡ aborted Severity.runtime ErrorCode.service_interrupted_by_com_shutdown)
resolve-reports_example = resolve-reports 0 resolver reading settled

abbrev host : Rest
host = record {
  bus = new_sequential_bus;
  read_status = λ i. record { ready = true; result = true };
}

answer_write-rest_write_example :
    (h' : Rest) × (t : Resolver) × (rest_write 0 6 3 ascending host ≡ ok h')
    × (answer_write (record resolver { result = h'.bus }) ≡ ok t)
    × ((t.bus.switches 0).sync_me ≡ false)
    × (t.result.signal.write_start_acknowledge ≡ false)
    × (t.bus.memory 0 ≡ ascending 3)
    × ((a : ℕ) → a ≢ 0 → t.bus.memory a ≡ blank a)
unfolding new_sequential_bus new_sequential_flags
answer_write-rest_write_example =
    answer_write-rest_write host resolver 0 5 3 ascending refl (omega arith) refl refl refl

-- A read end is queued for the second object.
abbrev queued : Resolver
queued = record resolver {
  result = record new_sequential_bus { read_end_id = 1 };
  read_end_queued = true;
}

rest_loop-answer_read_example :
    (t : Resolver) × (h' : Rest) × (answer_read queued ≡ ok t)
    × (t.read_end_queued ≡ false)
    × (t.bus.descriptors_updated ≡ false)
    × (rest_loop (record host { bus = t.result }) ≡ ok h')
    × ((h'.read_status 1).ready ≡ false)
    × ((h'.read_status 1).result ≡ true)
    × (h'.bus.signal.read_end_acknowledge ≡ false)
unfolding new_sequential_bus new_sequential_flags
rest_loop-answer_read_example = rest_loop-answer_read host queued refl refl (omega arith) refl

-- The host is told of the first object.
abbrev told : Rest
told = record host {
  bus = record new_sequential_bus {
    read_end_id = 0;
    signal = record new_sequential_flags { read_end_updated = false };
  };
}

fpga_rest_loop-answer_write_example :
    (told.bus.read_end_id ≡ 0
      → told.bus.signal.write_start_acknowledge ≡ false
      → resolver.pending_write_request 0 ≡ false
      → resolver.bus.descriptors_updated ≡ false
      → (resolver.bus.descriptors.arr 0).obj_size ≡ suc 5
      → (h' : Rest) × (t : Resolver) × (fpga_rest_loop 6 3 ascending told ≡ ok h')
        × (answer_write (record resolver { result = h'.bus }) ≡ ok t)
        × ((t.bus.switches 0).sync_me ≡ false)
        × (t.result.signal.write_start_acknowledge ≡ false)
        × (t.bus.memory 0 ≡ ascending 3))
    × (told.bus.read_end_id ≢ 0
        → (told.read_status 0).ready ≡ true
        → (h' : Rest) × (fpga_rest_loop 6 3 ascending told ≡ ok h')
          × (h'.bus.signal.read_end_acknowledge ≡ false)
          × (h'.bus.signal.write_start_updated ≡ told.bus.signal.write_start_updated)
          × (h'.bus.write_start_out ≡ told.bus.write_start_out))
fpga_rest_loop-answer_write_example =
    fpga_rest_loop-answer_write told resolver 5 3 ascending refl (omega arith)
