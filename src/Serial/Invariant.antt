-- ===== src/Serial/Invariant.antt =====
-- The invariant of an endpoint, from its construction on.
use software_on_silicon.Base.{ℕ, ◌<◌, ◌≡◌, refl, sym, ◌∙◌, arith, Bool, true, false, List, length}
use software_on_silicon.Errors.{ok, ◌>>=◌, Safe, returns, >>=-Safe, if-Safe, Safe-weaken}
use software_on_silicon.Signals.{DoubleHandShake}
use software_on_silicon.Com.{Com}
use software_on_silicon.Com.Offsets.{IsValid}
use software_on_silicon.Sync.{Sync, trigger_resolve}
use software_on_silicon.Sync.Laws.{Framed, emit_init_lem}
use software_on_silicon.Block.{Block}
use software_on_silicon.Block.Sound.{IsSound, IsSized}
use software_on_silicon.Block.Change.{IsSound-port, IsSound-sync, IsSound-memory}
use software_on_silicon.Serial.State.{Role, Serial, put_port, put_sync}
use software_on_silicon.Serial.Queries.{handshake_query}
use software_on_silicon.Serial.EventLoop.{handshake, handshake_ack, loop_in, loop_out, event_loop}
use software_on_silicon.Serial.Ready.{IsReady}
use software_on_silicon.Serial.Incoming.{loop_in-IsReady}
use software_on_silicon.Serial.Outgoing.{loop_out-IsReady}

-- An endpoint that has not sent anything: nothing is locked or in transfer, and the descriptors
-- on the bus are those of objects whose sizes are multiples of three.
pub record IsBooting (s : Serial) : Type 0 where
  pub first : s.first_run ≡ true
  pub port : IsValid s.block.uart
  pub unlocked : s.block.sync.bus.descriptors_updated ≡ false
  pub shared : IsSized s.block.sync.bus.descriptors
  pub read_free : (j : ℕ) → s.block.read_lock j ≡ false
  pub write_free :
      (s.block.send_lock ≡ false) × (s.block.write_origin_pos ≡ 0) × (s.block.write3plus1 ≡ 0)
  pub receive_free :
      (s.block.receive_lock ≡ false)
      × (s.block.read_destination_pos ≡ 0)
      × (s.block.read4minus1 ≡ 0)
  pub coded :
      (s.block.codec.write_count ≡ 0)
      × (s.block.codec.read_count ≡ 0)
      × (s.block.codec.read_assembly ≡ 0)

-- The block once it has copied the descriptors.
boot-IsSound :
    (b : Block) (y : Sync)
    → IsValid b.uart
    → y.bus.descriptors_updated ≡ false
    → IsSized y.bus.descriptors
    → IsSized y.descriptors
    → ((j : ℕ) → b.read_lock j ≡ false)
    → (b.send_lock ≡ false) × (b.write_origin_pos ≡ 0) × (b.write3plus1 ≡ 0)
    → (b.receive_lock ≡ false) × (b.read_destination_pos ≡ 0) × (b.read4minus1 ≡ 0)
    → (b.codec.write_count ≡ 0) × (b.codec.read_count ≡ 0) × (b.codec.read_assembly ≡ 0)
    → IsSound (record b { sync = y })
boot-IsSound b y port lock shared own locks (w0, w1, w2) (r0, r1, r2) (c0, c1, c2) = record {
  port = port;
  unlocked = lock;
  own = own;
  shared = shared;
  exclusive = λ j h. absurd (clash (locks j) h);
  origin = λ h. absurd (clash w0 h);
  destination = λ h. absurd (clash r0 h);
  write_idle = λ h. (w1, w2);
  write_place = λ h. absurd (clash w0 h);
  write_data_place = λ h lt. absurd (clash w0 h);
  write_padding_place = λ h. absurd (clash w0 h);
  write_phase = omega arith;
  write_coded = omega arith;
  read_idle = λ h. (r1, r2);
  read_place = omega arith;
  read_room = λ h. absurd (clash r0 h);
  read_phase = omega arith;
  read_coded = omega arith;
  read_fits = omega arith;
}
  where
    clash : {v : Bool} → v ≡ false → v ≡ true → ⊥
    clash e h = cc

loop_in-boot :
    (role : Role) (s : Serial) → IsBooting s → Safe (λ t. IsSound t.block) (loop_in role s)
unfolding loop_in
loop_in-boot role s v =
    let (y, e, bus, count, copied) = emit_init_lem s.block.sync v.unlocked in
    let own : IsSized y.descriptors = record {
      few = rw count v.shared.few;
      sizes = λ j lt. rw (copied j (before count lt)) (v.shared.sizes j (before count lt));
    } in
    if-Safe _ s.first_run _ _
      (λ _. rw e (
        returns _ (
          boot-IsSound s.block y v.port (rw bus v.unlocked) (rw bus v.shared) own v.read_free
            v.write_free v.receive_free v.coded)))
      (λ h. absurd (clash h v.first))
  where
    clash : {v : Bool} → v ≡ false → v ≡ true → ⊥
    clash e h = cc

    before : {m n j : ℕ} → m ≡ n → j < m → j < n
    before e lt = omega arith

-- Either the first byte is still to be sent, or the invariant holds.
pub data IsLive (s : Serial) : Type 0 where
  booting : IsBooting s → IsLive s
  running : IsReady s → IsLive s

-- What other threads change between two steps: the port's signals and the received bytes, and the
-- flags and objects on the bus of the resolver.
abbrev pub disturb : Serial → Com → Sync → Serial
disturb s u y = put_port (put_sync s y) u

pub disturb-IsBooting :
    (s : Serial) (u : Com) (y : Sync)
    → IsValid u
    → Framed (record (s.block.sync) { bus = record (s.block.sync.bus) { memory = y.bus.memory } }) y
    → IsBooting s
    → IsBooting (disturb s u y)
disturb-IsBooting s u y valid f v = record {
  first = v.first;
  port = valid;
  unlocked = f.lock ∙ v.unlocked;
  shared = rw f.shared v.shared;
  read_free = v.read_free;
  write_free = v.write_free;
  receive_free = v.receive_free;
  coded = v.coded;
}

pub disturb-IsReady :
    (s : Serial) (u : Com) (y : Sync)
    → IsValid u
    → Framed (record (s.block.sync) { bus = record (s.block.sync.bus) { memory = y.bus.memory } }) y
    → IsReady s
    → IsReady (disturb s u y)
disturb-IsReady s u y valid f r =
    let m = record (s.block.sync) { bus = record (s.block.sync.bus) { memory = y.bus.memory } } in
    record {
      started = r.started;
      sound =
          IsSound-port (record (s.block) { sync = y }) u valid
            (IsSound-sync (record (s.block) { sync = m }) y f
              (IsSound-memory s.block y.bus.memory r.sound));
    }

trigger_resolve-Framed : (y : Sync) → Framed y (trigger_resolve y)
unfolding trigger_resolve
trigger_resolve-Framed y = record { descriptors = refl; shared = refl; lock = refl; memory = refl }

pub port_signal-IsValid :
    (c : Com) (bytes : List ℕ) (g : DoubleHandShake)
    → length bytes ≡ length c.in_buffer
    → IsValid c
    → IsValid (record c { in_buffer = bytes; signal = g })
port_signal-IsValid c bytes g e v = record {
  in_first = v.in_first;
  in_last = v.in_last ∙ sym e;
  out_first = v.out_first;
  out_last = v.out_last;
  same_size = e ∙ v.same_size;
  read_in = v.read_in;
  write_in = v.write_in;
}

handshake-IsReady : (s : Serial) → IsReady s → IsReady ((handshake s).1)
unfolding handshake
handshake-IsReady s r = record {
  started = r.started;
  sound =
      IsSound-port s.block _
        (port_signal-IsValid s.block.uart s.block.uart.in_buffer _ refl r.sound.port) r.sound;
}

handshake-IsBooting : (s : Serial) → IsBooting s → IsBooting ((handshake s).1)
unfolding handshake
handshake-IsBooting s v = record {
  first = v.first;
  port = port_signal-IsValid s.block.uart s.block.uart.in_buffer _ refl v.port;
  unlocked = v.unlocked;
  shared = v.shared;
  read_free = v.read_free;
  write_free = v.write_free;
  receive_free = v.receive_free;
  coded = v.coded;
}

handshake_ack-IsReady : (s : Serial) → IsReady s → IsReady (handshake_ack s)
unfolding handshake_ack
handshake_ack-IsReady s r =
    let y = trigger_resolve s.block.sync in
    record {
      started = r.started;
      sound =
          IsSound-port (record (s.block) { sync = y }) _
            (port_signal-IsValid s.block.uart s.block.uart.in_buffer _ refl r.sound.port)
            (IsSound-sync s.block y (trigger_resolve-Framed s.block.sync) r.sound);
    }

-- The two halves and the acknowledgement.
turn-IsReady :
    (role : Role) (t : Serial)
    → Safe (λ u. IsSound u.block) (loop_in role t)
    → Safe IsReady (loop_in role t >>= λ u. loop_out role u >>= λ v. ok (handshake_ack v))
turn-IsReady role t h = >>=-Safe _ IsReady (loop_in role t) _ h (λ u sound.
    >>=-Safe IsReady IsReady (loop_out role u) _ (loop_out-IsReady role u sound)
      (λ w k. returns _ (handshake_ack-IsReady w k)))

-- A step of a live endpoint returns or aborts, and an endpoint that it returns is live.
pub event_loop-IsLive : (role : Role) (s : Serial) → IsLive s → Safe IsLive (event_loop role s)
unfolding event_loop
event_loop-IsLive role s (IsLive.booting v) =
    let t = (handshake s).1 in
    let vt = handshake-IsBooting s v in
    if-Safe IsLive (handshake_query role s) _ _
      (λ _.
        if-Safe IsLive ((handshake s).0) _ _
          (λ _.
            Safe-weaken IsReady IsLive _ (λ u. running)
              (turn-IsReady role t (loop_in-boot role t vt)))
          (λ _. returns _ (booting vt)))
      (λ _. returns _ (booting v))
event_loop-IsLive role s (IsLive.running r) =
    let t = (handshake s).1 in
    let rt = handshake-IsReady s r in
    if-Safe IsLive (handshake_query role s) _ _
      (λ _.
        if-Safe IsLive ((handshake s).0) _ _
          (λ _.
            Safe-weaken IsReady IsLive _ (λ u. running)
              (turn-IsReady role t (
                Safe-weaken IsReady _ (loop_in role t) (λ u k. k.sound)
                  (loop_in-IsReady role t rt))))
          (λ _. returns _ (running rt)))
      (λ _. returns _ (running r))
