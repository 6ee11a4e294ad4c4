-- ===== src/Serial/Runs.antt =====
-- The states an endpoint can come to, with the other threads between its steps.
use software_on_silicon.Base.{ℕ, ◌<◌, ◌≡◌, ◌∙◌, sym, true, false, List, length}
use software_on_silicon.Errors.{Outcome, ok, aborted, spin, Safe, ok_inj, aborted_not_ok}
use software_on_silicon.Signals.{DoubleHandShake}
use software_on_silicon.Com.{Com}
use software_on_silicon.Sync.{Sync}
use software_on_silicon.Sync.Laws.{Framed}
use software_on_silicon.Serial.State.{Role, Serial}
use software_on_silicon.Serial.EventLoop.{event_loop}
use software_on_silicon.Serial.Invariant.{
  IsBooting, IsLive, booting, running, disturb, disturb-IsBooting, disturb-IsReady,
  port_signal-IsValid, event_loop-IsLive,
}

-- The port with other bytes received and other signals.
abbrev pub refilled : Com → List ℕ → DoubleHandShake → Com
refilled c bytes g = record c { in_buffer = bytes; signal = g }

-- The bus and reads of `s`, over the memory of `y`.
abbrev pub over_memory : Sync → Sync → Sync
over_memory s y = record s { bus = record (s.bus) { memory = y.bus.memory } }

-- From `s`: any number of calls of `event_loop` that return, and between them what others do. They
-- refill the in-buffer, set and clear the port's signals and the switches, and write to memory. The
-- lock of the descriptors is as it was when they are done, and so are the descriptors.
pub data Run (role : Role) (s : Serial) : Serial → Type 0 where
  start : Run role s s
  turn : (t u : Serial) → Run role s t → event_loop role t ≡ ok u → Run role s u
  others :
      (t : Serial) (bytes : List ℕ) (g : DoubleHandShake) (y : Sync)
      → Run role s t
      → length bytes ≡ length t.block.uart.in_buffer
      → Framed (over_memory t.block.sync y) y
      → Run role s (disturb t (refilled t.block.uart bytes g) y)

disturb-IsLive :
    (t : Serial) (bytes : List ℕ) (g : DoubleHandShake) (y : Sync)
    → length bytes ≡ length t.block.uart.in_buffer
    → Framed (over_memory t.block.sync y) y
    → IsLive t
    → IsLive (disturb t (refilled t.block.uart bytes g) y)
disturb-IsLive t bytes g y e f (IsLive.booting v) = booting (
    disturb-IsBooting t (refilled t.block.uart bytes g) y
      (port_signal-IsValid t.block.uart bytes g e v.port) f v)
disturb-IsLive t bytes g y e f (IsLive.running r) = running (
    disturb-IsReady t (refilled t.block.uart bytes g) y
      (port_signal-IsValid t.block.uart bytes g e r.sound.port) f r)

returned : {P : Serial → Type 0} (m : Outcome Serial) {u : Serial} → m ≡ ok u → Safe P m → P u
returned (ok _) e (Safe.returns a h) = rw (sym (ok_inj e)) h
returned (aborted _ _) e (Safe.aborts s c) = absurd (aborted_not_ok e)
returned spin e h = elim h [ ]

not_spin : {P : Serial → Type 0} (m : Outcome Serial) → Safe P m → ¬ (m ≡ spin)
not_spin (ok _) (Safe.returns a h) = λ e. cc
not_spin (aborted _ _) (Safe.aborts s c) = λ e. cc
not_spin spin h = elim h [ ]

pub Run-IsLive : {role : Role} {s t : Serial} → IsBooting s → Run role s t → IsLive t
Run-IsLive v start = booting v
Run-IsLive {role} v (turn t u run e) =
    returned (event_loop role t) e (event_loop-IsLive role t (Run-IsLive v run))
Run-IsLive v (others t bytes g y run e f) = disturb-IsLive t bytes g y e f (Run-IsLive v run)

-- An endpoint starts with nothing locked or in transfer, and others leave the lock of the
-- descriptors free between its steps. Whatever it then goes through, its next step does not hang,
-- and once it has sent its first byte no object is read-locked and in transfer at once, and the
-- objects that are locked for sending and for receiving are among its descriptors.
pub event_loop-Run :
    (role : Role) (s t : Serial)
    → IsBooting s
    → Run role s t
    → (¬ (event_loop role t ≡ spin))
      × (t.first_run ≡ false
          → ((id : ℕ) → t.block.read_lock id ≡ true → t.block.transfer id ≡ false)
            × (t.block.send_lock ≡ true → t.block.write_origin < t.block.sync.descriptors.count)
            × (t.block.receive_lock ≡ true
                → t.block.read_destination < t.block.sync.descriptors.count))
event_loop-Run role s t v run =
    let live = Run-IsLive v run in
    (not_spin (event_loop role t) (event_loop-IsLive role t live), kept live)
  where
    kept :
        IsLive t
        → t.first_run ≡ false
        → ((id : ℕ) → t.block.read_lock id ≡ true → t.block.transfer id ≡ false)
          × (t.block.send_lock ≡ true → t.block.write_origin < t.block.sync.descriptors.count)
          × (t.block.receive_lock ≡ true
              → t.block.read_destination < t.block.sync.descriptors.count)
    kept (booting w) h = absurd (clash (sym (w.first) ∙ h))
      where
        clash : true ≡ false → ⊥
        clash e = cc
    kept (running r) h =
        (r.sound.exclusive, λ l. (r.sound.origin l).0, λ l. (r.sound.destination l).0)
