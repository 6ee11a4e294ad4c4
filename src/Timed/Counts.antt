-- ===== src/Timed/Counts.antt =====
-- How often the controller of impl/Controller.cpp prints.
use software_on_silicon.Base.{ℕ, suc, ◌+◌, ◌≤◌, ◌≡◌, arith, true, false, length}
use software_on_silicon.Signals.{HandShake, Flag, new_hand_shake, new_notify, cleared, raised}
use software_on_silicon.Timed.{
  Controller, new_controller, timer_loop, notify_loop, control_light, is_requested, ask_waiter,
  acknowledge_request, print_light,
}

-- The steps of the threads around a controller, after `n` requests of its client: the client asks or
-- takes an acknowledge back, the light goes on or off, and the controller and the timer run.
pub data Served (c : Controller) : ℕ → Controller → Type 0 where
  begins : Served c 0 c
  asks :
      {n : ℕ} {d : Controller}
      → Served c n d
      → Served c (suc n) (record d { intrinsic = record (d.intrinsic) { updated = cleared } })
  takes :
      {n : ℕ} {d : Controller}
      → Served c n d
      → Served c n (record d { intrinsic = record (d.intrinsic) { acknowledge = raised } })
  lights :
      {n : ℕ} {d : Controller}
      → Served c n d
      → Served c n (record d { foreign = (notify_loop d.foreign).0 })
  darkens :
      {n : ℕ} {d : Controller}
      → Served c n d
      → Served c n (record d { foreign = (notify_loop d.foreign).1 })
  controls : {n : ℕ} {d : Controller} → Served c n d → Served c n (control_light d)
  times :
      {n : ℕ} {d : Controller}
      → Served c n d
      → Served c n (record d { waiter = timer_loop d.waiter })

-- A flag that is clear counts as one.
unfoldable pending : Flag → ℕ
pending true = 0
pending false = 1

record IsCounted (n : ℕ) (c : Controller) : Type 0 where
  asked : c.waiter.run_count + pending c.waiter.signal.updated + pending c.intrinsic.updated ≤ n
  answered : length c.output + pending c.waiter.signal.acknowledge ≤ c.waiter.run_count

pending_bound : (f : Flag) → pending f ≤ 1
unfolding pending
pending_bound true = omega arith
pending_bound false = omega arith

asked_at_first : {f : Flag} → f ≡ raised → 0 + 0 + pending f ≤ 0
unfolding pending
asked_at_first e = rw e (omega arith)

timer-IsCounted :
    (n : ℕ) (c : Controller)
    → IsCounted n c
    → IsCounted n (record c { waiter = timer_loop c.waiter })
unfolding timer_loop pending
timer-IsCounted n c k =
    let low = pending_bound c.waiter.signal.acknowledge in
    record {
      asked = ground (arith, k.asked, k.answered, low);
      answered = ground (arith, k.asked, k.answered, low);
    }

control-IsCounted : (n : ℕ) (c : Controller) → IsCounted n c → IsCounted n (control_light c)
unfolding control_light is_requested ask_waiter acknowledge_request print_light pending
control-IsCounted n c k = record {
  asked = ground (arith, k.asked, k.answered);
  answered = ground (arith, k.asked, k.answered);
}

Served-IsCounted :
    (signal : HandShake) {n : ℕ} {c : Controller}
    → signal.updated ≡ raised
    → Served (new_controller signal) n c
    → IsCounted n c
unfolding new_controller new_hand_shake new_notify notify_loop pending
Served-IsCounted signal e begins = record { asked = asked_at_first e; answered = omega arith }
Served-IsCounted signal e (asks {d = d} r) =
    let k = Served-IsCounted signal e r in
    record { asked = omega (arith, k.asked); answered = k.answered }
Served-IsCounted signal e (takes r) =
    let k = Served-IsCounted signal e r in record { asked = k.asked; answered = k.answered }
Served-IsCounted signal e (lights r) =
    let k = Served-IsCounted signal e r in record { asked = k.asked; answered = k.answered }
Served-IsCounted signal e (darkens r) =
    let k = Served-IsCounted signal e r in record { asked = k.asked; answered = k.answered }
Served-IsCounted signal e (controls {n} {d} r) = control-IsCounted n d (Served-IsCounted signal e r)
Served-IsCounted signal e (times {n} {d} r) = timer-IsCounted n d (Served-IsCounted signal e r)

-- A controller whose bus starts without a request, and any interleaving of its client, the light,
-- the timer and its own event loop: it has printed at most as often as the timer has run, and the
-- timer has run at most as often as the client has asked.
pub control_light-bounds :
    (signal : HandShake) (n : ℕ) (c : Controller)
    → signal.updated ≡ raised
    → Served (new_controller signal) n c
    → (length c.output ≤ c.waiter.run_count) × (c.waiter.run_count ≤ n)
control_light-bounds signal n c e r =
    let k = Served-IsCounted signal e r in (omega (arith, k.answered), omega (arith, k.asked))
