-- ===== src/Tests/Endpoints.antt =====
-- The event loop and the crossovers on the samples.
use software_on_silicon.Base.{ℕ, ◌<◌, ◌≡◌, refl, arith, true, false, get_or, [], ◌∷◌}
use software_on_silicon.Errors.{ok, spin, Safe}
use software_on_silicon.Serial.State.{fpga, mcu, Serial, new_serial, new_com_vars}
use software_on_silicon.Serial.Crossover.{read_bits, write_bits}
use software_on_silicon.Serial.Requests.{send_transfer_request}
use software_on_silicon.Serial.ReadHook.{read_hook}
use software_on_silicon.Serial.EventLoop.{event_loop}
use software_on_silicon.Serial.Ready.{IsReady}
use software_on_silicon.Serial.Invariant.{IsBooting, IsLive, running, event_loop-IsLive, disturb}
use software_on_silicon.Serial.Runs.{Run, start, others, refilled, event_loop-Run}
use software_on_silicon.Serial.Shutdown.{begin_destroy, await_exit, await_exit-begin_destroy}
use software_on_silicon.Serial.Signalling.{
  update_in, acknowledge_in, read_bits-write_bits, read_hook-send_transfer_request,
}
use software_on_silicon.Tests.Samples.{
  fresh, expecting, first_only, open_flags, port-IsValid, helper-IsSized, receiver-IsSound,
}

pub fresh-IsBooting : IsBooting fresh
unfolding new_serial new_com_vars
fresh-IsBooting = record {
  first = refl;
  port = port-IsValid;
  unlocked = refl;
  shared = helper-IsSized;
  read_free = λ j. refl;
  write_free = (refl, refl, refl);
  receive_free = (refl, refl, refl);
  coded = (refl, refl, refl);
}

expecting-IsReady : IsReady expecting
unfolding new_serial new_com_vars
expecting-IsReady = record { started = refl; sound = receiver-IsSound }

-- A byte of the expected object comes in.
event_loop-IsLive_example : Safe IsLive (event_loop mcu expecting)
unfolding new_serial new_com_vars
event_loop-IsLive_example = event_loop-IsLive mcu expecting (running expecting-IsReady)

-- A fresh endpoint to which another byte has come in.
refilled-fresh :
    Run fpga fresh
      (disturb fresh (refilled fresh.block.uart (0x3B ∷ []) open_flags) fresh.block.sync)
unfolding new_serial new_com_vars
refilled-fresh =
    others fresh (0x3B ∷ []) open_flags fresh.block.sync start refl
      (record { descriptors = refl; shared = refl; lock = refl; memory = refl })

event_loop-Run_example :
    let t = disturb fresh (refilled fresh.block.uart (0x3B ∷ []) open_flags) fresh.block.sync in
    (¬ (event_loop fpga t ≡ spin))
    × (t.first_run ≡ false
        → ((id : ℕ) → t.block.read_lock id ≡ true → t.block.transfer id ≡ false)
          × (t.block.send_lock ≡ true → t.block.write_origin < t.block.sync.descriptors.count)
          × (t.block.receive_lock ≡ true
              → t.block.read_destination < t.block.sync.descriptors.count))
unfolding new_serial new_com_vars
event_loop-Run_example =
    event_loop-Run fpga fresh
      (disturb fresh (refilled fresh.block.uart (0x3B ∷ []) open_flags) fresh.block.sync)
      fresh-IsBooting refilled-fresh

read_bits-write_bits_example :
    let s = record fresh { fpga_updated = true } in
    let r = read_bits mcu expecting (write_bits fpga s 21) in
    (update_in mcu r ≡ true) × (acknowledge_in mcu r ≡ false)
unfolding new_serial new_com_vars
read_bits-write_bits_example =
    read_bits-write_bits fpga (record fresh { fpga_updated = true }) expecting 21 (omega arith)

read_hook-send_transfer_request_example :
    (u : Serial) × (send_transfer_request mcu 1 expecting ≡ ok u)
    × (read_hook fpga fresh (get_or u.block.uart.out_buffer 0 0)
        ≡ ok (record fresh { incoming_request = 1 }))
unfolding new_serial new_com_vars
read_hook-send_transfer_request_example =
    read_hook-send_transfer_request mcu 1 expecting fresh (omega arith) port-IsValid refl

-- An FPGA whose first object is being read, and one that has sent its hangup.
abbrev in_read : Serial
in_read = record fresh {
  block = record (fresh.block) {
    sync = record (fresh.block.sync) { read_started_id = first_only };
  };
}

abbrev hung_up : Serial
hung_up = record fresh { vars = record (fresh.vars) { sent_sighup = true } }

await_exit-begin_destroy_example :
    let d = begin_destroy fpga in_read in
    let sw = in_read.block.sync.bus.switches 0 in
    (d.vars.descendants_notified ≡ true)
    × (in_read.block.sync.read_started_id 0 ≡ false → d.block.sync.bus.switches 0 ≡ sw)
    × (in_read.block.sync.read_started_id 0 ≡ true
        → d.block.sync.bus.switches 0
          ≡ record sw { read_op = record { notify = true }; read_fault = false; read_ack = false })
    × (hung_up.vars.sent_sighup ≡ false → await_exit fpga hung_up ≡ spin)
    × (hung_up.vars.sent_sighup ≡ true
        → (await_exit fpga hung_up ≡ ok hung_up) × (event_loop fpga hung_up ≡ ok hung_up))
await_exit-begin_destroy_example = await_exit-begin_destroy in_read hung_up 0 (omega arith)
