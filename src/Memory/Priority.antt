-- ===== src/Memory/Priority.antt =====
-- `WritePriorityImpl` of impl/MemoryController.cpp: the writer that fills the memory with a light
-- that is on for 333 rounds and off for 666.
pub mod Pattern
use software_on_silicon.Base.{ℕ, zero, suc, ◌+◌, Bool, true, false, not, ◌&&◌, ◌==◌, if◌then◌else◌}
use software_on_silicon.Errors.{Outcome, ok, ◌>>=◌}
use software_on_silicon.Memory.{Blocker, new_blocker, write}

pub record WritePriority {ℓ} (A : Type ℓ) : Type ℓ where
  pub blocker : Blocker A
  pub counter : ℕ
  pub blink : Bool

-- The constructor, over a memory of `size` cells that it fills with `blank`.
unfoldable pub new_write_priority {ℓ} : {A : Type ℓ} → ℕ → A → WritePriority A
unfolding new_blocker
new_write_priority size blank = record {
  blocker = new_blocker size blank;
  counter = 0;
  blink = true;
}

-- The counter and the light after a write.
unfoldable pub advance {ℓ} : {A : Type ℓ} → WritePriority A → WritePriority A
advance w =
    let counter = w.counter + 1 in
    if w.blink && (counter == 333)
    then record w { counter = 0; blink = false }
    else if not w.blink && (counter == 666)
    then record w { counter = 0; blink = true }
    else record w { counter = counter }

-- `WritePriorityImpl::event_loop`, with the values that stand for a light that is on and off.
unfoldable pub priority_loop {ℓ} :
    {A : Type ℓ} → A → A → WritePriority A → Outcome (WritePriority A)
unfolding write advance
priority_loop lit dark w =
    write w.blocker (if w.blink then lit else dark) >>= λ b. ok (advance (record w { blocker = b }))

-- `n` calls.
unfoldable pub priority_rounds {ℓ} :
    {A : Type ℓ} → A → A → ℕ → WritePriority A → Outcome (WritePriority A)
unfolding priority_loop
priority_rounds lit dark zero w = ok w
priority_rounds lit dark (suc n) w = priority_rounds lit dark n w >>= priority_loop lit dark
