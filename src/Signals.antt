-- ===== src/Signals.antt =====
-- The signals of include/software-on-silicon/INTERFACE.hpp and rtos_helpers.hpp: atomic flags, and
-- the classes that start them set or clear.
use software_on_silicon.Base.{Bool, true, false}

-- `std::atomic_flag`: true is set. A flag that is clear signals an event, and the side that finds
-- it clear sets it again.
abbrev pub Flag : Type 0
Flag = Bool

-- `test_and_set` returns the old value beside the new one.
abbrev pub test_and_set : Flag → Bool × Flag
test_and_set f = (f, true)

abbrev pub cleared : Flag
cleared = false

abbrev pub raised : Flag
raised = true

pub record Notify : Type 0 where
  pub notify : Flag

pub record Ring : Type 0 where
  pub ring : Flag

pub record Pair : Type 0 where
  pub first : Flag
  pub second : Flag

pub record HandShake : Type 0 where
  pub updated : Flag
  pub acknowledge : Flag

-- `DoubleHandShake`: `HandShake` and `AsyncAndHandShake`.
pub record DoubleHandShake : Type 0 where
  pub updated : Flag
  pub acknowledge : Flag
  pub aux_updated : Flag
  pub aux_acknowledge : Flag

-- The constructors.
unfoldable pub new_notify : Notify
new_notify = record { notify = raised }

unfoldable pub new_ring : Ring
new_ring = record { ring = cleared }

unfoldable pub new_pair : Pair
new_pair = record { first = raised; second = raised }

unfoldable pub new_hand_shake : HandShake
new_hand_shake = record { updated = raised; acknowledge = raised }

unfoldable pub new_double_hand_shake : DoubleHandShake
new_double_hand_shake = record {
  updated = raised;
  acknowledge = raised;
  aux_updated = raised;
  aux_acknowledge = raised;
}

-- `AsyncAndNotify` and `AsyncAndRing`: one flag each.
pub record AsyncAndNotify : Type 0 where
  pub second : Flag

unfoldable pub new_async_and_notify : AsyncAndNotify
new_async_and_notify = record { second = raised }

pub record AsyncAndRing : Type 0 where
  pub second : Flag

unfoldable pub new_async_and_ring : AsyncAndRing
new_async_and_ring = record { second = raised }

-- `AsyncAndHandShake`
pub record AsyncAndHandShake : Type 0 where
  pub aux_updated : Flag
  pub aux_acknowledge : Flag

unfoldable pub new_async_and_hand_shake : AsyncAndHandShake
new_async_and_hand_shake = record { aux_updated = raised; aux_acknowledge = raised }

-- `NotifyAndHandShake`
pub record NotifyAndHandShake : Type 0 where
  pub notify : Flag
  pub aux_updated : Flag
  pub aux_acknowledge : Flag

unfoldable pub new_notify_and_hand_shake : NotifyAndHandShake
new_notify_and_hand_shake = record {
  notify = raised;
  aux_updated = raised;
  aux_acknowledge = raised;
}

-- `RingAndHandShake`, which stands on `AsyncAndRing`: a ring and one flag more.
pub record RingAndHandShake : Type 0 where
  pub ring : Flag
  pub second : Flag

unfoldable pub new_ring_and_hand_shake : RingAndHandShake
new_ring_and_hand_shake = record { ring = cleared; second = raised }

-- `AsyncAndPair`
pub record AsyncAndPair : Type 0 where
  pub first : Flag
  pub second : Flag

unfoldable pub new_async_and_pair : AsyncAndPair
new_async_and_pair = record { first = raised; second = raised }

-- `NotifyAndNotify` and `NotifyAndPair`
pub record NotifyAndNotify : Type 0 where
  pub notify : Flag
  pub second : Flag

unfoldable pub new_notify_and_notify : NotifyAndNotify
new_notify_and_notify = record { notify = raised; second = raised }

pub record NotifyAndPair : Type 0 where
  pub notify : Flag
  pub first : Flag
  pub second : Flag

unfoldable pub new_notify_and_pair : NotifyAndPair
new_notify_and_pair = record { notify = raised; first = raised; second = raised }
