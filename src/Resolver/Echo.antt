-- ===== src/Resolver/Echo.antt =====
-- `FPGARest` and `MCURest` of impl/MCUFPGA.cpp: the hosts that send their colour back when they
-- have received one.
use software_on_silicon.Base.{
  ℕ, suc, ◌<◌, ◌≡◌, ◌≢◌, refl, ap, ◌∙◌, arith, true, false, if◌then◌else◌, Array, update,
  update_self, update_ne,
}
use software_on_silicon.Errors.{Outcome, ok, ◌>>=◌}
use software_on_silicon.Sync.{num_ids}
use software_on_silicon.Resolver.{Resolver, answer_write}
use software_on_silicon.Resolver.Rest.{
  Rest, ResolverStatus, rest_loop, read_event, read_success, rest_write, answer_write-rest_write,
}

-- What both do after the step of `REST`: `size` bytes from the address `origin` are the host's
-- `current_color`.
unfoldable pub write_color : ℕ → ℕ → Array ℕ → Rest → Outcome Rest
unfolding read_event read_success rest_write
write_color size origin memory h =
    let (event, t) = read_event 0 h in
    if event then (if read_success 0 t then rest_write 0 size origin memory t else ok t) else ok t

-- `FPGARest::event_loop`
unfoldable pub fpga_rest_loop : ℕ → ℕ → Array ℕ → Rest → Outcome Rest
unfolding rest_loop write_color
fpga_rest_loop size origin memory h = rest_loop h >>= write_color size origin memory

-- `MCURest::event_loop`
unfoldable pub mcu_rest_loop : ℕ → ℕ → Array ℕ → Rest → Outcome Rest
unfolding rest_loop write_color
mcu_rest_loop size origin memory h = rest_loop h >>= write_color size origin memory

abbrev answered : Rest → Rest
answered h = record h {
  bus = record (h.bus) {
    signal = record (h.bus.signal) { read_end_updated = true; read_end_acknowledge = false };
  };
  read_status = update h.read_status h.bus.read_end_id (record { ready = false; result = true });
}

-- With the event taken.
abbrev taken : Rest → Rest
taken h = record h {
  read_status = update h.read_status 0 (record (h.read_status 0) { ready = true });
}

rest_loop_answers :
    (h : Rest)
    → h.bus.signal.read_end_updated ≡ false
    → h.bus.read_end_id < num_ids
    → rest_loop h ≡ ok (answered h)
unfolding rest_loop
rest_loop_answers h asked known = ground (arith, asked, known)

write_color_ready :
    (size origin : ℕ) (memory : Array ℕ) (h : Rest)
    → (h.read_status 0).ready ≡ false
    → (h.read_status 0).result ≡ true
    → write_color size origin memory h ≡ rest_write 0 size origin memory (taken h)
unfolding write_color read_event read_success
write_color_ready size origin memory h ready fine = ground (arith, ready, fine)

write_color_idle :
    (size origin : ℕ) (memory : Array ℕ) (h : Rest)
    → (h.read_status 0).ready ≡ true
    → write_color size origin memory h ≡ ok (taken h)
unfolding write_color read_event read_success
write_color_idle size origin memory h idle = ground (arith, idle)

-- A host that is told of a received object. If it is object 0, and the conditions hold under which
-- the resolver takes a write of object 0, then one step of the host and the resolver's next look at
-- the bus return, and the transfer of object 0 back to the other side is asked for, with the first byte of the host's colour at the object's address. If it is any other
-- known object and none waits for object 0, the step acknowledges it and writes nothing.
pub fpga_rest_loop-answer_write :
    (h : Rest) (r : Resolver) (n origin : ℕ) (memory : Array ℕ)
    → h.bus.signal.read_end_updated ≡ false
    → h.bus.read_end_id < num_ids
    → (h.bus.read_end_id ≡ 0
        → h.bus.signal.write_start_acknowledge ≡ false
        → r.pending_write_request 0 ≡ false
        → r.bus.descriptors_updated ≡ false
        → (r.bus.descriptors.arr 0).obj_size ≡ suc n
        → (h' : Rest) × (t : Resolver) × (fpga_rest_loop (suc n) origin memory h ≡ ok h')
          × (answer_write (record r { result = h'.bus }) ≡ ok t)
          × ((t.bus.switches 0).sync_me ≡ false)
          × (t.result.signal.write_start_acknowledge ≡ false)
          × (t.bus.memory (r.bus.descriptors.arr 0).obj ≡ memory origin))
      × (h.bus.read_end_id ≢ 0
          → (h.read_status 0).ready ≡ true
          → (h' : Rest) × (fpga_rest_loop (suc n) origin memory h ≡ ok h')
            × (h'.bus.signal.read_end_acknowledge ≡ false)
            × (h'.bus.signal.write_start_updated ≡ h.bus.signal.write_start_updated)
            × (h'.bus.write_start_out ≡ h.bus.write_start_out))
unfolding fpga_rest_loop
fpga_rest_loop-answer_write h r n origin memory asked known =
    let start : rest_loop h ≡ ok (answered h) = rest_loop_answers h asked known in
    let begun = ap (λ m. m >>= write_color (suc n) origin memory) start in
    (
      λ zeroth free none_pending open_lock size.
          let status : (answered h).read_status 0 ≡ record { ready = false; result = true } =
            rw zeroth (update_self h.read_status 0 (record { ready = false; result = true })) in
          let step =
            write_color_ready (suc n) origin memory (answered h)
              (ap (λ (s : ResolverStatus). s.ready) status)
              (ap (λ (s : ResolverStatus). s.result) status) in
          let (h', t, e, f, sync, acknowledged, first, others) =
            answer_write-rest_write (taken (answered h)) r 0 n origin memory free (omega arith)
              none_pending open_lock size in
          (h', t, begun ∙ step ∙ e, f, sync, acknowledged, first),
      λ other idle.
          let status : (answered h).read_status 0 ≡ h.read_status 0 =
            update_ne h.read_status h.bus.read_end_id 0 (record { ready = false; result = true })
              other in
          let step =
            write_color_idle (suc n) origin memory (answered h)
              (ap (λ (s : ResolverStatus). s.ready) status ∙ idle) in
          (taken (answered h), begun ∙ step, refl, refl, refl),
    )
