-- ===== src/Tests/Controllers.antt =====
-- Controllers, threads at one flag, and the counter on samples.
use software_on_silicon.Base.{
  ℕ, suc, ◌+◌, ◌*◌, ◌%◌, ◌^◌, ◌≤◌, ◌<◌, ◌≡◌, ◌≢◌, refl, ◌⊎◌, arith, true, false, [], ◌∷◌, length,
  pos,
}
use software_on_silicon.Errors.{ok, aborted, Severity}
use software_on_silicon.Errors.Code.{ErrorCode}
use software_on_silicon.Signals.{new_hand_shake, new_async_and_hand_shake, cleared}
use software_on_silicon.Timed.{Controller, new_controller, control_light, timer_loop}
use software_on_silicon.Timed.Counts.{Served, begins, asks, controls, times, control_light-bounds}
use software_on_silicon.Timed.Exclusion.{Place, Shared, Turns, tries, try_turn, Turns-IsExclusive}
use software_on_silicon.Counter.{
  SymbolRateCounter, IsBytes, increment, to_int32, total, increment_lem,
}
use software_on_silicon.Boot.{
  BootstrapAsyncController, new_bootstrap, destroy_bootstrap, stop_descendants, descendants_stopped,
}
use software_on_silicon.Boot.Children.{Bootstraps, constructs, Bootstraps-destroy_bootstrap}

-- A controller that has been asked twice, and a timer that has run once.
abbrev begun : Controller
begun = new_controller new_hand_shake

abbrev asked : Controller → Controller
asked c = record c { intrinsic = record (c.intrinsic) { updated = cleared } }

abbrev timed : Controller → Controller
timed c = record c { waiter = timer_loop c.waiter }

abbrev printed_once : Controller
printed_once = control_light (asked (timed (control_light (asked begun))))

serves : Served begun 2 printed_once
serves = controls (asks (times (controls (asks begins))))

printed_once-output : printed_once.output ≡ "_" ∷ []
unfolding control_light timer_loop new_controller new_hand_shake
printed_once-output = refl

begun-updated : new_hand_shake.updated ≡ true
unfolding new_hand_shake
begun-updated = refl

control_light-bounds_example :
    (length printed_once.output ≤ printed_once.waiter.run_count)
    × (printed_once.waiter.run_count ≤ 2)
control_light-bounds_example =
    control_light-bounds new_hand_shake 2 printed_once begun-updated serves

abbrev at_flag : Shared
at_flag = record { notify = false; places = λ i. Place.outside; output = [] }

abbrev both_tried : Shared
both_tried = try_turn 5 (try_turn 2 at_flag)

five_outside : (try_turn 2 at_flag).places 5 ≡ Place.outside
unfolding try_turn
five_outside = refl

both_try : Turns both_tried
both_try = tries 5 five_outside (tries 2 refl (Turns.begins []))

Turns-IsExclusive_example :
    ((i j : ℕ) → i ≢ j → both_tried.places i ≢ Place.outside → both_tried.places j ≡ Place.outside)
    × ((both_tried.notify ≡ cleared) ⊎ ((i : ℕ) × (both_tried.places i ≢ Place.outside)))
Turns-IsExclusive_example = Turns-IsExclusive both_try

abbrev at_carry : SymbolRateCounter
at_carry = record { red = 127; green = 7; blue = 255 }

at_carry-IsBytes : IsBytes at_carry
at_carry-IsBytes = record { red = omega arith; green = omega arith; blue = omega arith }

increment_example :
    (d : SymbolRateCounter) × (increment at_carry ≡ ok d)
    × IsBytes d
    × (total d ≡ (total at_carry + 1) % 2 ^ 24)
    × (127 < 128 → 255 < 255 → to_int32 d ≡ pos (127 * 65025 + 7 * 255 + 255 + 1))
    × (127 < 128 → at_carry.blue ≡ 255 → 7 < 255 → to_int32 d ≡ to_int32 at_carry)
    × (127 < 127
        → at_carry.blue ≡ 255
        → at_carry.green ≡ 255
        → (to_int32 at_carry ≡ pos (127 * 65025 + 65280))
          × (to_int32 d ≡ pos (127 * 65025 + 65025)))
increment_example = increment_lem at_carry at_carry-IsBytes

abbrev parent : BootstrapAsyncController ℕ ℕ
parent = new_bootstrap suc new_async_and_hand_shake 4

parent_constructs : Bootstraps suc new_async_and_hand_shake 4 parent
parent_constructs = constructs

Bootstraps-destroy_bootstrap_example :
    ((destroy_bootstrap parent).deleted ≡ 5 ∷ [])
    × (descendants_stopped (destroy_bootstrap parent) ≡ true)
    × (descendants_stopped parent ≡ false
        → (c : BootstrapAsyncController ℕ ℕ) × (stop_descendants parent ≡ ok c)
          × (descendants_stopped c ≡ true)
          × (c.deleted ≡ 5 ∷ []))
    × (descendants_stopped parent ≡ true
        → stop_descendants parent
          ≡ aborted Severity.runtime ErrorCode.child_has_already_been_deleted)
Bootstraps-destroy_bootstrap_example =
    Bootstraps-destroy_bootstrap suc new_async_and_hand_shake 4 parent parent_constructs
