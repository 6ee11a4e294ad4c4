-- ===== src/Loop/Ending.antt =====
-- How a loop of include/software-on-silicon/INTERFACE.hpp ends.
use software_on_silicon.Base.{ℕ, ◌+◌, ◌≤◌, ◌≡◌, ◌≢◌, refl, arith, ◌⊎◌, inl, inr}
use software_on_silicon.Loop.{
  ThreadAt, OwnerAt, Looper, Step, starts, abandons, tests, turns, leaves, requests, joins, stops,
  waits, resets, Steps, none_yet, then_one, new_loop, start_thread, begin_stop, test_running,
  run_round, end_thread, request_join, join_thread, test_finished, reset_token, is_running,
  is_finished,
}
use software_on_silicon.Signals.{Flag}
use software_on_silicon.Loop.Stages.{Stage, InStage, Step-Stage, Steps-Stage}

-- The steps left to a loop that has been asked to stop.
unfoldable thread_left : ThreadAt → ℕ
thread_left ThreadAt.unborn = 0
thread_left ThreadAt.testing = 2
thread_left ThreadAt.looping = 3
thread_left ThreadAt.leaving = 1
thread_left ThreadAt.ended = 0

unfoldable owner_left : OwnerAt → ℕ
owner_left OwnerAt.constructed = 0
owner_left OwnerAt.owning = 0
owner_left OwnerAt.joining = 4
owner_left OwnerAt.joined = 3
owner_left OwnerAt.stopping = 2
owner_left OwnerAt.draining = 1
owner_left OwnerAt.destroyed = 0

-- The call of `event_loop` that is in progress.
unfoldable in_progress : ThreadAt → ℕ
in_progress ThreadAt.unborn = 0
in_progress ThreadAt.testing = 0
in_progress ThreadAt.looping = 1
in_progress ThreadAt.leaving = 0
in_progress ThreadAt.ended = 0

unfoldable steps_left : {A : Type 0} → Looper A → ℕ
unfolding thread_left owner_left
steps_left l = owner_left l.owner + thread_left l.thread

unfoldable calls_left : {A : Type 0} → Looper A → ℕ
unfolding in_progress
calls_left l = in_progress l.thread

-- The places after the request.
data After : OwnerAt → ThreadAt → Type 0 where
  joining : (t : ThreadAt) → After OwnerAt.joining t
  joined : After OwnerAt.joined ThreadAt.ended
  stopping : After OwnerAt.stopping ThreadAt.ended
  draining : After OwnerAt.draining ThreadAt.ended
  destroyed : After OwnerAt.destroyed ThreadAt.ended

Step-After :
    {A : Type 0} {event_loop : A → A} {l m : Looper A}
    → Step event_loop l m
    → InStage l
    → After l.owner l.thread
    → After m.owner m.thread
      × (1 + steps_left m ≡ steps_left l)
      × (m.rounds + calls_left m ≡ l.rounds + calls_left l)
      × (l.rounds ≤ m.rounds)
unfolding steps_left calls_left start_thread begin_stop test_running run_round end_thread
    request_join join_thread test_finished reset_token is_running is_finished
Step-After (starts l) at after = elim after [ ]
Step-After (abandons l) at after = elim after [ ]
Step-After (requests l) at after = elim after [ ]
Step-After (tests l) Stage.serving_test after = elim after [ ]
Step-After (turns l) Stage.serving_round after = elim after [ ]
Step-After (waits l) Stage.abandoned after = elim after [ ]
Step-After (tests l) Stage.asked_test (joining _) = (joining _, refl, refl, omega arith)
Step-After (turns l) Stage.asked_round (joining _) = (joining _, refl, omega arith, omega arith)
Step-After (leaves l) Stage.asked_end (joining _) = (joining _, refl, refl, omega arith)
Step-After (joins l) Stage.over (joining _) = (joined, refl, refl, omega arith)
Step-After (stops l) Stage.joined joined = (stopping, refl, refl, omega arith)
Step-After (waits l) Stage.stopping stopping = (draining, refl, refl, omega arith)
Step-After (resets l) Stage.draining draining = (destroyed, refl, refl, omega arith)

-- A loop that is not done can step on.
next_step :
    {A : Type 0} (event_loop : A → A) (l : Looper A)
    → InStage l
    → After l.owner l.thread
    → (l.owner ≡ OwnerAt.destroyed) ⊎ ((m : Looper A) × Step event_loop l m)
next_step {A = A} event_loop l at after = go at after
  where
    go :
        {o : OwnerAt} {t : ThreadAt} {u a : Flag}
        → Stage o t u a
        → After o t
        → (o ≡ OwnerAt.destroyed)
          ⊎ ((m : Looper A) × Step event_loop (record l { owner = o; thread = t }) m)
    go Stage.asked_test (joining _) = inr (_, tests (record l { owner = OwnerAt.joining }))
    go Stage.asked_round (joining _) = inr (_, turns (record l { owner = OwnerAt.joining }))
    go Stage.asked_end (joining _) = inr (_, leaves (record l { owner = OwnerAt.joining }))
    go Stage.over (joining _) = inr (_, joins l)
    go Stage.joined joined = inr (_, stops (record l { thread = ThreadAt.ended }))
    go Stage.stopping stopping = inr (_, waits (record l { thread = ThreadAt.ended }))
    go Stage.draining draining = inr (_, resets (record l { thread = ThreadAt.ended }))
    go Stage.destroyed destroyed = inl refl
    go Stage.serving_test after = elim after [ ]
    go Stage.serving_round after = elim after [ ]
    go Stage.abandoned after = elim after [ ]
    go Stage.new after = elim after [ ]

Steps-After :
    {A : Type 0} {event_loop : A → A} {l : Looper A} {n : ℕ} {m : Looper A}
    → Steps event_loop l n m
    → InStage l
    → After l.owner l.thread
    → InStage m
      × After m.owner m.thread
      × (n + steps_left m ≡ steps_left l)
      × (m.rounds + calls_left m ≡ l.rounds + calls_left l)
      × (l.rounds ≤ m.rounds)
Steps-After none_yet at after = (at, after, omega arith, refl, omega arith)
Steps-After (then_one r s) at after =
    let (at1, after1, e1, f1, g1) = Steps-After r at after in
    let (after2, e2, f2, g2) = Step-After s at1 after1 in
    (Step-Stage s at1, after2, omega arith, omega arith, omega arith)

asked_left :
    {A : Type 0} (l : Looper A)
    → l.owner ≡ OwnerAt.joining
    → (steps_left l ≤ 7) × (calls_left l ≤ 1)
unfolding steps_left calls_left thread_left owner_left in_progress
asked_left l e = (rw e (bound l.thread), pending l.thread)
  where
    bound : (t : ThreadAt) → 4 + thread_left t ≤ 7
    bound ThreadAt.unborn = omega arith
    bound ThreadAt.testing = omega arith
    bound ThreadAt.looping = omega arith
    bound ThreadAt.leaving = omega arith
    bound ThreadAt.ended = omega arith

    pending : (t : ThreadAt) → in_progress t ≤ 1
    pending ThreadAt.unborn = omega arith
    pending ThreadAt.testing = omega arith
    pending ThreadAt.looping = omega arith
    pending ThreadAt.leaving = omega arith
    pending ThreadAt.ended = omega arith

not_looping : (t : ThreadAt) → t ≢ ThreadAt.looping → in_progress t ≡ 0
unfolding in_progress
not_looping ThreadAt.unborn ne = refl
not_looping ThreadAt.testing ne = refl
not_looping ThreadAt.looping ne = absurd (ne refl)
not_looping ThreadAt.leaving ne = refl
not_looping ThreadAt.ended ne = refl

-- A loop whose owner has asked it to stop in `destroy` ends: it takes at most seven more steps in
-- any order, and can take one as long as the owner is not done with the destructor. At most one
-- call of `event_loop` follows the request, the one that was in progress.
pub Steps-request_join :
    {A : Type 0} {event_loop : A → A} (x : A) {n k : ℕ} {l m : Looper A}
    → Steps event_loop (new_loop x) n l
    → l.owner ≡ OwnerAt.joining
    → Steps event_loop l k m
    → (k ≤ 7)
      × (m.rounds ≤ l.rounds + 1)
      × (l.thread ≢ ThreadAt.looping → m.rounds ≡ l.rounds)
      × ((m.owner ≡ OwnerAt.destroyed) ⊎ ((next : Looper A) × Step event_loop m next))
unfolding calls_left
Steps-request_join {event_loop} x {l} {m} r e s =
    let (at, counted_calls) = Steps-Stage x r in
    let after : After l.owner l.thread = rw e (joining l.thread) in
    let (at1, after1, left, calls, more) = Steps-After s at after in
    let (few, one) = asked_left l e in
    let still : l.thread ≢ ThreadAt.looping → m.rounds ≡ l.rounds =
      λ ne. let idle : calls_left l ≡ 0 = not_looping l.thread ne in omega arith in
    (omega arith, omega arith, λ ne. still ne, next_step event_loop m at1 after1)
