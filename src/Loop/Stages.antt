-- ===== src/Loop/Stages.antt =====
-- The places in which the owner and the thread of a loop can be at once, with the stop token.
use software_on_silicon.Base.{ℕ, zero, suc, ◌≡◌, refl, ap}
use software_on_silicon.Signals.{Flag, cleared, raised, new_hand_shake}
use software_on_silicon.Loop.{
  ThreadAt, OwnerAt, Looper, Step, starts, abandons, tests, turns, leaves, requests, joins, stops,
  waits, resets, Steps, none_yet, then_one, new_loop, start_thread, begin_stop, test_running,
  run_round, end_thread, request_join, join_thread, test_finished, reset_token, is_running,
  is_finished, finished, request_stop,
}

-- Owner, thread, and the two flags of the token.
pub data Stage : OwnerAt → ThreadAt → Flag → Flag → Type 0 where
  new : Stage OwnerAt.constructed ThreadAt.unborn raised raised
  abandoned : Stage OwnerAt.stopping ThreadAt.unborn cleared raised
  serving_test : Stage OwnerAt.owning ThreadAt.testing raised raised
  serving_round : Stage OwnerAt.owning ThreadAt.looping raised raised
  asked_test : Stage OwnerAt.joining ThreadAt.testing cleared raised
  asked_round : Stage OwnerAt.joining ThreadAt.looping cleared raised
  asked_end : Stage OwnerAt.joining ThreadAt.leaving raised raised
  over : Stage OwnerAt.joining ThreadAt.ended raised cleared
  joined : Stage OwnerAt.joined ThreadAt.ended raised cleared
  stopping : Stage OwnerAt.stopping ThreadAt.ended cleared cleared
  draining : Stage OwnerAt.draining ThreadAt.ended cleared raised
  destroyed : Stage OwnerAt.destroyed ThreadAt.ended cleared cleared

abbrev pub InStage : {A : Type 0} → Looper A → Type 0
InStage l = Stage l.owner l.thread l.stop_token.updated l.stop_token.acknowledge

pub Step-Stage :
    {A : Type 0} {event_loop : A → A} {l m : Looper A} → Step event_loop l m → InStage l → InStage m
unfolding start_thread begin_stop test_running run_round end_thread request_join join_thread
    test_finished reset_token is_running is_finished finished request_stop
Step-Stage (starts l) new = serving_test
Step-Stage (abandons l) new = abandoned
Step-Stage (tests l) serving_test = serving_round
Step-Stage (tests l) asked_test = asked_end
Step-Stage (turns l) serving_round = serving_test
Step-Stage (turns l) asked_round = asked_test
Step-Stage (leaves l) asked_end = over
Step-Stage (requests l) serving_test = asked_test
Step-Stage (requests l) serving_round = asked_round
Step-Stage (joins l) over = joined
Step-Stage (stops l) joined = stopping
Step-Stage (waits l) abandoned = abandoned
Step-Stage (waits l) stopping = draining
Step-Stage (resets l) draining = destroyed

-- `n` calls of `event_loop`.
unfoldable pub calls : {A : Type 0} → (A → A) → ℕ → A → A
calls event_loop zero x = x
calls event_loop (suc n) x = event_loop (calls event_loop n x)

abbrev HasCounted : {A : Type 0} → (A → A) → A → Looper A → Type 0
HasCounted event_loop x l = l.object ≡ calls event_loop l.rounds x

Step-HasCounted :
    {A : Type 0} {event_loop : A → A} (x : A) {l m : Looper A}
    → Step event_loop l m
    → HasCounted event_loop x l
    → HasCounted event_loop x m
unfolding start_thread begin_stop test_running run_round end_thread request_join join_thread
    test_finished reset_token calls
Step-HasCounted x (starts l) e = e
Step-HasCounted x (abandons l) e = e
Step-HasCounted x (tests l) e = e
Step-HasCounted {event_loop} x (turns l) e = ap event_loop e
Step-HasCounted x (leaves l) e = e
Step-HasCounted x (requests l) e = e
Step-HasCounted x (joins l) e = e
Step-HasCounted x (stops l) e = e
Step-HasCounted x (waits l) e = e
Step-HasCounted x (resets l) e = e

-- Whatever the owner and the thread do after the construction of a loop, they are at one of the
-- stages of `Stage`, and the object is what the counted calls of `event_loop` make of it. In
-- particular the thread does not leave its loop before it is asked to, no call of `event_loop`
-- follows the join, and the owner is done only when the thread has ended.
pub Steps-Stage :
    {A : Type 0} {event_loop : A → A} (x : A) {n : ℕ} {l : Looper A}
    → Steps event_loop (new_loop x) n l
    → InStage l × (l.object ≡ calls event_loop l.rounds x)
unfolding new_loop new_hand_shake calls
Steps-Stage x none_yet = (Stage.new, refl)
Steps-Stage x (then_one r s) =
    let (at, e) = Steps-Stage x r in (Step-Stage s at, Step-HasCounted x s e)
