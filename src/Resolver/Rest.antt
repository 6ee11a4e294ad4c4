-- ===== src/Resolver/Rest.antt =====
-- `REST` of include/software-on-silicon/SerialNotifier.hpp: the host on the other side of the
-- resolver's bus.
use software_on_silicon.Base.{
  ℕ, zero, suc, ◌+◌, ◌<◌, ◌≡◌, ◌≢◌, refl, sym, ap, ◌∙◌, arith, Bool, true, false, not, ltb,
  if◌then◌else◌, Array, update,
}
use software_on_silicon.Errors.{Outcome, ok, spin, logic_error}
use software_on_silicon.Errors.Code.{ErrorCode}
use software_on_silicon.Signals.{Flag, test_and_set, cleared}
use software_on_silicon.Sync.{num_ids}
use software_on_silicon.Resolver.{
  Resolver, SequentialBus, fill_read_end, take_write_start, send_read_end, answer_write,
  answer_read,
}
use software_on_silicon.Resolver.Contract.{take_write_start_lem}

pub record ResolverStatus : Type 0 where
  pub ready : Flag
  pub result : Bool

pub record Rest : Type 0 where
  pub bus : SequentialBus
  pub read_status : Array ResolverStatus

-- `REST::event_loop`
unfoldable pub rest_loop : Rest → Outcome Rest
rest_loop h =
    let (idle, f) = test_and_set h.bus.signal.read_end_updated in
    let id = h.bus.read_end_id in
    let answered = λ (status : Array ResolverStatus). record h {
      bus = record (h.bus) {
        signal = record (h.bus.signal) { read_end_updated = f; read_end_acknowledge = cleared };
      };
      read_status = status;
    } in
    if idle
    then ok h
    else if ltb id num_ids
    then ok (answered (update h.read_status id (record { ready = cleared; result = true })))
    else logic_error ErrorCode.illegal_read_end_id

-- `read_event` and `read_success` do not look at their argument.
unfoldable pub read_event : ℕ → Rest → Bool × Rest
read_event id h =
    let (idle, f) = test_and_set (h.read_status 0).ready in
    (
      not idle,
      record h { read_status = update h.read_status 0 (record (h.read_status 0) { ready = f }) },
    )

unfoldable pub read_success : ℕ → Rest → Bool
read_success id h = (h.read_status 0).result

-- The loop of `write`: `n` rounds from index `i` on, each with the first byte of the object.
unfoldable pub fill_write_start : ℕ → ℕ → ℕ → Array ℕ → Array ℕ
fill_write_start zero i first buffer = buffer
fill_write_start (suc n) i first buffer = fill_write_start n (i + 1) first (update buffer i first)

-- `REST::write` of the object `id` from `size` bytes at the address `origin`.
unfoldable pub rest_write : ℕ → ℕ → ℕ → Array ℕ → Rest → Outcome Rest
unfolding fill_write_start
rest_write id size origin memory h =
    let (held, f) = test_and_set h.bus.signal.write_start_acknowledge in
    if held
    then spin
    else ok (record h {
      bus = record (h.bus) {
        write_start_id = id;
        write_start_out = fill_write_start size 0 (memory origin) h.bus.write_start_out;
        signal = record (h.bus.signal) {
          write_start_acknowledge = f;
          write_start_updated = cleared;
        };
      };
    })

fill_write_start_last :
    (n i first : ℕ) (buffer : Array ℕ) → fill_write_start (suc n) i first buffer (i + n) ≡ first
unfolding fill_write_start
fill_write_start_last zero i first buffer = ground arith
fill_write_start_last (suc n) i first buffer =
    let at : i + suc n ≡ i + 1 + n = omega arith in
    rw at (fill_write_start_last n (i + 1) first (update buffer i first))

answer_write_asked :
    (r : Resolver)
    → r.result.signal.write_start_updated ≡ false
    → answer_write r
      ≡ take_write_start (record r {
        result = record (r.result) {
          signal = record (r.result.signal) { write_start_updated = true };
        };
      })
unfolding answer_write
answer_write_asked r e = ground (arith, e)

-- The host and the resolver on one bus. From a bus whose last request has been acknowledged the host's
-- write returns, and the resolver's next look at the bus takes the request: where the object's id
-- is known, no request for it is pending, the lock of the descriptors is free and the host's object
-- has as many bytes as the descriptor says, it asks for the transfer and acknowledges, so that the
-- host's next write returns as well. The first byte of the host's object is then at the object's
-- address, and all other memory of the resolver is as it was.
pub answer_write-rest_write :
    (h : Rest) (r : Resolver) (id n origin : ℕ) (memory : Array ℕ)
    → h.bus.signal.write_start_acknowledge ≡ false
    → id < num_ids
    → r.pending_write_request id ≡ false
    → r.bus.descriptors_updated ≡ false
    → (r.bus.descriptors.arr id).obj_size ≡ suc n
    → let obj = (r.bus.descriptors.arr id).obj in
      (h' : Rest) × (t : Resolver) × (rest_write id (suc n) origin memory h ≡ ok h')
      × (answer_write (record r { result = h'.bus }) ≡ ok t)
      × ((t.bus.switches id).sync_me ≡ false)
      × (t.result.signal.write_start_acknowledge ≡ false)
      × (t.bus.memory obj ≡ memory origin)
      × ((a : ℕ) → a ≢ obj → t.bus.memory a ≡ r.bus.memory a)
unfolding rest_write
answer_write-rest_write h r id n origin memory free known none_pending open_lock size =
    let out = fill_write_start (suc n) 0 (memory origin) h.bus.write_start_out in
    let bus : SequentialBus = record (h.bus) {
      write_start_id = id;
      write_start_out = out;
      signal = record (h.bus.signal) {
        write_start_acknowledge = true;
        write_start_updated = false;
      };
    } in
    let asked = record r { result = bus } in
    let seen = record r {
      result = record bus { signal = record (bus.signal) { write_start_updated = true } };
    } in
    let (t, e, sync, pending, acknowledged, unlocked, last, others) =
      take_write_start_lem seen n known none_pending open_lock size in
    let zeroth : n ≡ 0 + n = omega arith in
    (
      record h { bus = bus },
      t,
      ground (arith, free),
      answer_write_asked asked refl ∙ e,
      sync,
      acknowledged,
      last ∙ ap out zeroth ∙ fill_write_start_last n 0 (memory origin) h.bus.write_start_out,
      others,
    )

answer_read_queued :
    (r : Resolver)
    → r.read_end_queued ≡ true
    → r.result.signal.read_end_acknowledge ≡ false
    → r.result.read_end_id < num_ids
    → r.bus.descriptors_updated ≡ false
    → (t : Resolver) × (answer_read r ≡ ok t)
      × (t.result.read_end_id ≡ r.result.read_end_id)
      × (t.result.signal.read_end_updated ≡ false)
      × (t.read_end_queued ≡ false)
      × (t.bus.descriptors_updated ≡ false)
unfolding answer_read send_read_end
answer_read_queued r queued free known open_lock =
    let id = r.result.read_end_id in
    let place = r.bus.descriptors.arr id in
    (
      record r {
        bus = record (r.bus) { descriptors_updated = false };
        result = record (r.result) {
          read_end_in = fill_read_end place.obj_size 0 place.obj r.bus.memory r.result.read_end_in;
          signal = record (r.result.signal) {
            read_end_acknowledge = true;
            read_end_updated = false;
          };
        };
        read_end_queued = false;
      },
      ground (arith, queued, free, known, open_lock),
      refl,
      refl,
      refl,
      refl,
    )

rest_loop_answered :
    (h : Rest)
    → h.bus.signal.read_end_updated ≡ false
    → h.bus.read_end_id < num_ids
    → (h' : Rest) × (rest_loop h ≡ ok h')
      × ((h'.read_status h.bus.read_end_id).ready ≡ false)
      × ((h'.read_status h.bus.read_end_id).result ≡ true)
      × (h'.bus.signal.read_end_acknowledge ≡ false)
unfolding rest_loop
rest_loop_answered h asked known =
    let id = h.bus.read_end_id in
    (
      record h {
        bus = record (h.bus) {
          signal = record (h.bus.signal) { read_end_updated = true; read_end_acknowledge = false };
        };
        read_status = update h.read_status id (record { ready = false; result = true });
      },
      ground (arith, asked, known),
      ground arith,
      ground arith,
      refl,
    )

-- A read end on its way to the host. Where one is queued for a known id, the host has acknowledged
-- the one before and the lock of the descriptors is free, the resolver's answer returns with the
-- lock free again and nothing queued, and the host's next step notes the object as ready and
-- successful and acknowledges, so that the resolver's next answer does not wait.
pub rest_loop-answer_read :
    (h : Rest) (r : Resolver)
    → r.read_end_queued ≡ true
    → r.result.signal.read_end_acknowledge ≡ false
    → r.result.read_end_id < num_ids
    → r.bus.descriptors_updated ≡ false
    → let id = r.result.read_end_id in
      (t : Resolver) × (h' : Rest) × (answer_read r ≡ ok t)
      × (t.read_end_queued ≡ false)
      × (t.bus.descriptors_updated ≡ false)
      × (rest_loop (record h { bus = t.result }) ≡ ok h')
      × ((h'.read_status id).ready ≡ false)
      × ((h'.read_status id).result ≡ true)
      × (h'.bus.signal.read_end_acknowledge ≡ false)
rest_loop-answer_read h r queued free known open_lock =
    let (t, e, same, asked, done, unlocked) = answer_read_queued r queued free known open_lock in
    let (h', e', ready, fine, acknowledged) =
      rest_loop_answered (record h { bus = t.result }) asked (omega (arith, known, same)) in
    (
      t,
      h',
      e,
      done,
      unlocked,
      e',
      ap (λ (i : ℕ). (h'.read_status i).ready) (sym same) ∙ ready,
      ap (λ (i : ℕ). (h'.read_status i).result) (sym same) ∙ fine,
      acknowledged,
    )
