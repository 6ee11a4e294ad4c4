-- ===== src/Loop.antt =====
-- `Loop` of include/software-on-silicon/INTERFACE.hpp: a thread that calls `event_loop` until its
-- owner asks it to stop, and the owner that starts, joins and destroys it. One step is one access to
-- the stop token, the start or the join of the thread, or one call of `event_loop`.
pub mod Stages
pub mod Ending
pub mod Unstarted
use software_on_silicon.Base.{ℕ, suc, Bool, not, if◌then◌else◌}
use software_on_silicon.Signals.{HandShake, new_hand_shake, test_and_set, cleared, raised}

-- Where the thread is in `_stoppable_loop`.
pub data ThreadAt : Type 0 where
  unborn : ThreadAt
  testing : ThreadAt
  looping : ThreadAt
  leaving : ThreadAt
  ended : ThreadAt

-- Where the owner is: it has the object, has asked the thread to stop in `destroy`, has joined it,
-- is in the loop of `stop`, has left that loop, or is done.
pub data OwnerAt : Type 0 where
  constructed : OwnerAt
  owning : OwnerAt
  joining : OwnerAt
  joined : OwnerAt
  stopping : OwnerAt
  draining : OwnerAt
  destroyed : OwnerAt

-- A loop over an object in state `object`, after `rounds` calls of `event_loop`.
pub record Looper (A : Type 0) : Type 0 where
  pub stop_token : HandShake
  pub thread : ThreadAt
  pub owner : OwnerAt
  pub object : A
  pub rounds : ℕ

-- `Loop::Loop`
unfoldable pub new_loop : {A : Type 0} → A → Looper A
unfolding new_hand_shake
new_loop x = record {
  stop_token = new_hand_shake;
  thread = ThreadAt.unborn;
  owner = OwnerAt.constructed;
  object = x;
  rounds = 0;
}

-- `Loop::is_running`
unfoldable pub is_running : HandShake → Bool × HandShake
is_running t = let (running, f) = test_and_set t.updated in (running, record t { updated = f })

-- `Loop::finished`
unfoldable pub finished : HandShake → HandShake
finished t = record t { acknowledge = cleared }

-- `Loop::is_finished`, which the loop of `stop` negates.
unfoldable pub is_finished : HandShake → Bool × HandShake
is_finished t =
    let (waiting, f) = test_and_set t.acknowledge in (not waiting, record t { acknowledge = f })

-- `Loop::request_stop`
unfoldable pub request_stop : HandShake → HandShake
request_stop t = record t { updated = cleared }

-- `Loop::start`
unfoldable pub start_thread : {A : Type 0} → Looper A → Looper A
start_thread l = record l {
  stop_token = record (l.stop_token) { updated = raised };
  thread = ThreadAt.testing;
  owner = OwnerAt.owning;
}

-- The thread: the test of the `while`, a call of `event_loop`, and the end.
unfoldable pub test_running : {A : Type 0} → Looper A → Looper A
unfolding is_running
test_running l = record l {
  stop_token = (is_running l.stop_token).1;
  thread = if (is_running l.stop_token).0 then ThreadAt.looping else ThreadAt.leaving;
}

unfoldable pub run_round : {A : Type 0} → (A → A) → Looper A → Looper A
run_round event_loop l = record l {
  thread = ThreadAt.testing;
  object = event_loop l.object;
  rounds = suc l.rounds;
}

unfoldable pub end_thread : {A : Type 0} → Looper A → Looper A
unfolding finished
end_thread l = record l { stop_token = finished l.stop_token; thread = ThreadAt.ended }

-- `Loop::destroy`: the request, and the join, which returns when the thread has ended.
unfoldable pub request_join : {A : Type 0} → Looper A → Looper A
unfolding request_stop
request_join l = record l { stop_token = request_stop l.stop_token; owner = OwnerAt.joining }

unfoldable pub join_thread : {A : Type 0} → Looper A → Looper A
join_thread l = record l { owner = OwnerAt.joined }

-- `Loop::stop`, which `~Loop` calls: the request, one test of its loop, and the reset.
unfoldable pub begin_stop : {A : Type 0} → Looper A → Looper A
unfolding request_stop
begin_stop l = record l { stop_token = request_stop l.stop_token; owner = OwnerAt.stopping }

unfoldable pub test_finished : {A : Type 0} → Looper A → Looper A
unfolding is_finished
test_finished l = record l {
  stop_token = (is_finished l.stop_token).1;
  owner = if (is_finished l.stop_token).0 then OwnerAt.draining else OwnerAt.stopping;
}

unfoldable pub reset_token : {A : Type 0} → Looper A → Looper A
unfolding finished
reset_token l = record l { stop_token = finished l.stop_token; owner = OwnerAt.destroyed }

-- The steps, in any order that the places of the owner and the thread allow. `abandons` destroys a
-- loop that was never started.
pub data Step {A : Type 0} (event_loop : A → A) : Looper A → Looper A → Type 0 where
  starts :
      (l : Looper A)
      → Step event_loop
          (record l { owner = OwnerAt.constructed; thread = ThreadAt.unborn })
          (start_thread l)
  abandons :
      (l : Looper A)
      → Step event_loop
          (record l { owner = OwnerAt.constructed; thread = ThreadAt.unborn })
          (begin_stop (record l { thread = ThreadAt.unborn }))
  tests : (l : Looper A) → Step event_loop (record l { thread = ThreadAt.testing }) (test_running l)
  turns :
      (l : Looper A)
      → Step event_loop (record l { thread = ThreadAt.looping }) (run_round event_loop l)
  leaves : (l : Looper A) → Step event_loop (record l { thread = ThreadAt.leaving }) (end_thread l)
  requests : (l : Looper A) → Step event_loop (record l { owner = OwnerAt.owning }) (request_join l)
  joins :
      (l : Looper A)
      → Step event_loop
          (record l { owner = OwnerAt.joining; thread = ThreadAt.ended })
          (join_thread (record l { thread = ThreadAt.ended }))
  stops : (l : Looper A) → Step event_loop (record l { owner = OwnerAt.joined }) (begin_stop l)
  waits : (l : Looper A) → Step event_loop (record l { owner = OwnerAt.stopping }) (test_finished l)
  resets : (l : Looper A) → Step event_loop (record l { owner = OwnerAt.draining }) (reset_token l)

-- Any number of steps, and how many.
pub data Steps {A : Type 0} (event_loop : A → A) (l : Looper A) : ℕ → Looper A → Type 0 where
  none_yet : Steps event_loop l 0 l
  then_one :
      {n : ℕ} {m k : Looper A}
      → Steps event_loop l n m
      → Step event_loop m k
      → Steps event_loop l (suc n) k
