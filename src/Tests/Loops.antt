-- ===== src/Tests/Loops.antt =====
-- Loops on samples: an object that counts the calls of its `event_loop`.
use software_on_silicon.Base.{ℕ, suc, ◌+◌, ◌≤◌, ◌≡◌, ◌≢◌, refl, ◌⊎◌}
use software_on_silicon.Loop.{
  ThreadAt, OwnerAt, Looper, Step, starts, tests, turns, leaves, requests, waits, Steps, none_yet,
  then_one, new_loop, start_thread, begin_stop, test_running, run_round, end_thread, request_join,
  test_finished, is_running, request_stop,
}
use software_on_silicon.Signals.{new_hand_shake}
use software_on_silicon.Loop.Stages.{InStage, calls, Steps-Stage}
use software_on_silicon.Loop.Ending.{Steps-request_join}
use software_on_silicon.Loop.Unstarted.{Steps-begin_stop}

abbrev in_first_round : Looper ℕ
in_first_round = test_running (start_thread (new_loop 0))

first_round : Steps suc (new_loop 0) 2 in_first_round
unfolding new_loop start_thread test_running is_running new_hand_shake
first_round = then_one (then_one none_yet (starts (new_loop 0))) (tests (start_thread (new_loop 0)))

asked : Steps suc (new_loop 0) 3 (request_join in_first_round)
unfolding new_loop start_thread test_running is_running new_hand_shake
asked = then_one first_round (requests in_first_round)

-- The round in progress, and the end of the thread.
abbrev after_end : Looper ℕ
after_end = end_thread (test_running (run_round suc (request_join in_first_round)))

ends : Steps suc (request_join in_first_round) 3 after_end
unfolding new_loop start_thread test_running is_running request_join request_stop run_round
    new_hand_shake
ends =
    then_one
      (then_one (then_one none_yet (turns (request_join in_first_round)))
        (tests (run_round suc (request_join in_first_round))))
      (leaves (test_running (run_round suc (request_join in_first_round))))

Steps-Stage_example :
    InStage in_first_round × (in_first_round.object ≡ calls suc in_first_round.rounds 0)
Steps-Stage_example = Steps-Stage 0 first_round

request_join-owner : (request_join in_first_round).owner ≡ OwnerAt.joining
unfolding request_join
request_join-owner = refl

Steps-request_join_example :
    (3 ≤ 7)
    × (after_end.rounds ≤ (request_join in_first_round).rounds + 1)
    × ((request_join in_first_round).thread ≢ ThreadAt.looping
        → after_end.rounds ≡ (request_join in_first_round).rounds)
    × ((after_end.owner ≡ OwnerAt.destroyed) ⊎ ((next : Looper ℕ) × Step suc after_end next))
Steps-request_join_example = Steps-request_join 0 asked request_join-owner ends

abbrev unstarted : Looper ℕ
unstarted = new_loop 0

spins : Steps suc (begin_stop unstarted) 1 (test_finished (begin_stop unstarted))
unfolding begin_stop request_stop
spins = then_one none_yet (waits (begin_stop unstarted))

Steps-begin_stop_example : test_finished (begin_stop unstarted) ≡ begin_stop unstarted
Steps-begin_stop_example = Steps-begin_stop 0 spins
