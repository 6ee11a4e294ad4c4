-- ===== src/Serial/Shutdown.antt =====
-- The destructors of `FPGA` and `MCU` of impl/MCUFPGA.cpp, up to the end of their wait. What they
-- wait for is done by the event loop in its own thread.
use software_on_silicon.Base.{ℕ, ◌<◌, ◌≡◌, refl, arith, true, false, if◌then◌else◌}
use software_on_silicon.Errors.{Outcome, ok, spin}
use software_on_silicon.Sync.{num_ids}
use software_on_silicon.Sync.Laws.{emit_interrupted_lem}
use software_on_silicon.Serial.State.{Role, fpga, mcu, Serial}
use software_on_silicon.Serial.Queries.{stop_notifier, exit_query, handshake_query}
use software_on_silicon.Serial.EventLoop.{event_loop}

-- What comes before the wait.
unfoldable pub begin_destroy : Role → Serial → Serial
unfolding stop_notifier
begin_destroy fpga s = stop_notifier s
begin_destroy mcu s = s

-- `while (!exit_query()) yield();`
unfoldable pub await_exit : Role → Serial → Outcome Serial
unfolding exit_query
await_exit role s = if exit_query role s then ok s else spin

event_loop_stops : (t : Serial) → handshake_query fpga t ≡ false → event_loop fpga t ≡ ok t
unfolding event_loop
event_loop_stops t e = rw e refl

-- The end of an FPGA. Its destructor first reports each read in progress as a fault on the object's
-- switch, leaves the switches of all other objects alone, and notes that the descendants have been
-- told. It then waits until the hangup has been sent, and from then on the event loop changes
-- nothing more.
pub await_exit-begin_destroy :
    (s t : Serial) (id : ℕ)
    → id < num_ids
    → let d = begin_destroy fpga s in
      let sw = s.block.sync.bus.switches id in
      (d.vars.descendants_notified ≡ true)
      × (s.block.sync.read_started_id id ≡ false → d.block.sync.bus.switches id ≡ sw)
      × (s.block.sync.read_started_id id ≡ true
          → d.block.sync.bus.switches id ≡ record sw {
            read_op = record { notify = true };
            read_fault = false;
            read_ack = false;
          })
      × (t.vars.sent_sighup ≡ false → await_exit fpga t ≡ spin)
      × (t.vars.sent_sighup ≡ true → (await_exit fpga t ≡ ok t) × (event_loop fpga t ≡ ok t))
unfolding begin_destroy await_exit stop_notifier exit_query handshake_query
await_exit-begin_destroy s t id known =
    let law = emit_interrupted_lem s.block.sync id known in
    (
      refl,
      law.1,
      law.2,
      λ early. ground (arith, early),
      λ sent. (ground (arith, sent), event_loop_stops t (ground (arith, sent))),
    )
