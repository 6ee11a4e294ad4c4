-- ===== src/Loop/Unstarted.antt =====
-- A loop of include/software-on-silicon/INTERFACE.hpp whose thread never came to be.
use software_on_silicon.Base.{ℕ, ◌≡◌, refl, ◌∙◌}
use software_on_silicon.Loop.{
  ThreadAt, OwnerAt, Looper, Step, starts, abandons, tests, turns, leaves, requests, joins, stops,
  waits, resets, Steps, none_yet, then_one, new_loop, begin_stop, test_finished, is_finished,
}
use software_on_silicon.Signals.{Flag, raised, new_hand_shake}

data Abandoned : OwnerAt → ThreadAt → Flag → Type 0 where
  alone : Abandoned OwnerAt.stopping ThreadAt.unborn raised

Step-Abandoned :
    {A : Type 0} {event_loop : A → A} {l m : Looper A}
    → Step event_loop l m
    → Abandoned l.owner l.thread l.stop_token.acknowledge
    → m ≡ l
unfolding test_finished is_finished
Step-Abandoned (waits l) alone = refl
Step-Abandoned (starts l) left = elim left [ ]
Step-Abandoned (abandons l) left = elim left [ ]
Step-Abandoned (tests l) left = elim left [ ]
Step-Abandoned (turns l) left = elim left [ ]
Step-Abandoned (leaves l) left = elim left [ ]
Step-Abandoned (requests l) left = elim left [ ]
Step-Abandoned (joins l) left = elim left [ ]
Step-Abandoned (stops l) left = elim left [ ]
Step-Abandoned (resets l) left = elim left [ ]

-- A loop that was constructed and never started cannot be destroyed: nothing clears the flag that
-- the loop of `stop` waits for, and any number of steps leave everything as it was.
pub Steps-begin_stop :
    {A : Type 0} {event_loop : A → A} (x : A) {n : ℕ} {m : Looper A}
    → Steps event_loop (begin_stop (new_loop x)) n m
    → m ≡ begin_stop (new_loop x)
unfolding begin_stop new_loop new_hand_shake
Steps-begin_stop x none_yet = refl
Steps-begin_stop {event_loop} x (then_one {m = l} r s) =
    let e = Steps-begin_stop x r in Step-Abandoned s (rw e alone) ∙ e
