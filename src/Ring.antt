-- ===== src/Ring.antt =====
-- `RingBufferBus`, `RingBufferTask` and `RingBuffer` of include/software-on-silicon/RingBuffer.hpp
-- and `WriteInterleaved` of ringbuffer_helpers.hpp: a writer and a reader on one buffer, each with
-- an index of its own.
pub mod Gather
pub mod Fifo
pub mod Producer
use software_on_silicon.Base.{
  ℕ, zero, suc, ◌+◌, Bool, true, false, not, ltb, ◌==◌, if◌then◌else◌, Array, update, List, [], ◌∷◌,
}
use software_on_silicon.Errors.{Outcome, ok, spin, logic_error, runtime_error, ◌>>=◌}
use software_on_silicon.Errors.Code.{ErrorCode}
use software_on_silicon.Signals.{Flag, Notify, new_notify, test_and_set, cleared}

-- The bus over the buffer from `begin`, which is index 0, to `afterlast`, which is `size`.
pub record RingBus {ℓ} (A : Type ℓ) : Type ℓ where
  pub size : ℕ
  pub cells : Array A
  pub current : ℕ
  pub thread_current : ℕ
  pub signal : Notify

-- `RingBufferBus`
unfoldable pub new_ring_bus {ℓ} : {A : Type ℓ} → ℕ → Array A → Outcome (RingBus A)
unfolding new_notify
new_ring_bus size cells =
    if ltb size 2
    then logic_error ErrorCode.requested_ringbuffer_size_not_big_enough
    else ok (record {
      size = size;
      cells = cells;
      current = 1;
      thread_current = 0;
      signal = new_notify;
    })

-- `++` with the step from the end back to the start.
unfoldable pub next_index : ℕ → ℕ → ℕ
next_index size i = if i + 1 == size then 0 else i + 1

-- `WriteInterleaved` of one value.
unfoldable pub write_interleaved {ℓ} : {A : Type ℓ} → RingBus A → A → Outcome (RingBus A)
unfolding next_index
write_interleaved r v =
    if not (r.current == r.thread_current)
    then ok (record r {
      cells = update r.cells r.current v;
      current = next_index r.size r.current;
      signal = record { notify = cleared };
    })
    else runtime_error ErrorCode.ringbuffer_too_slow_or_not_big_enough

-- The loop of `read_hook` on fuel: the values it hands to `transfer`, in order, and where
-- `threadcurrent` stops.
unfoldable pub read_loop {ℓ} : {A : Type ℓ} → ℕ → ℕ → ℕ → Array A → ℕ → Outcome (List A × ℕ)
unfolding next_index
read_loop zero size current cells thread = spin
read_loop (suc fuel) size current cells thread =
    let next = next_index size thread in
    let rest = read_loop fuel size current cells next in
    if not (next == current) then (rest >>= λ r. ok (cells next ∷ r.0, r.1)) else ok ([], thread)

unfoldable pub read_hook {ℓ} : {A : Type ℓ} → RingBus A → Outcome (List A × RingBus A)
read_hook r = read_loop r.size r.size r.current r.cells r.thread_current >>= λ a.
    ok (a.0, record r { thread_current = a.1 })

-- `RingBuffer::event_loop`
unfoldable pub event_loop {ℓ} : {A : Type ℓ} → RingBus A → Outcome (List A × RingBus A)
unfolding read_hook
event_loop r =
    let (idle, f) = test_and_set r.signal.notify in
    let t = record r { signal = record { notify = f } } in
    if not idle then read_hook t else ok ([], t)
