-- ===== src/Serial/Link/Safety.antt =====
-- The two endpoints of include/software-on-silicon/Serial.hpp on the wire of test/test_mcufpga.cpp.
use software_on_silicon.Base.{
  ℕ, suc, ◌≡◌, refl, sym, ap, ◌∙◌, arith, false, ◌⊎◌, Bool-cases, inl, inr, List, [], ◌∷◌, length,
}
use software_on_silicon.Errors.{spin}
use software_on_silicon.Signals.{cleared, raised}
use software_on_silicon.Com.{Com}
use software_on_silicon.Sync.Laws.{Framed}
use software_on_silicon.Serial.State.{Role, fpga, mcu, Serial, put_port}
use software_on_silicon.Serial.EventLoop.{event_loop}
use software_on_silicon.Serial.Invariant.{IsBooting}
use software_on_silicon.Serial.Runs.{Run, over_memory, refilled, event_loop-Run}
use software_on_silicon.Serial.Link.{
  Link, port, copy_buffer, carry, flip_first, client_funct, host_funct, Linked, begins,
  client_turns, host_turns, carries_down, carries_up, client_resolves, host_resolves,
}

length-copy_buffer : (target source : List ℕ) → length (copy_buffer target source) ≡ length target
unfolding copy_buffer
length-copy_buffer [] source = refl
length-copy_buffer (x ∷ target) [] = refl
length-copy_buffer (x ∷ target) (y ∷ source) = ap suc (length-copy_buffer target source)

-- A refilled port is one of the steps of `Run`.
refill :
    {role : Role} {s t : Serial} (c : Com)
    → Run role s t
    → length c.in_buffer ≡ length (port t).in_buffer
    → c ≡ refilled (port t) c.in_buffer c.signal
    → Run role s (put_port t c)
refill {role} {s} {t} c r same e =
    rw e (Run.others t c.in_buffer c.signal t.block.sync r same framed)
  where
    framed : Framed (over_memory t.block.sync t.block.sync) t.block.sync
    framed = record { descriptors = refl; shared = refl; lock = refl; memory = refl }

-- What the wire does to a port, as a refill.
abbrev IsRefill : Com → Com → Type 0
IsRefill before c =
    (length c.in_buffer ≡ length before.in_buffer) × (c ≡ refilled before c.in_buffer c.signal)

carry-IsRefill :
    (from to : Com) → IsRefill from ((carry from to).0) × IsRefill to ((carry from to).1)
unfolding carry
carry-IsRefill from to = elim (Bool-cases from.signal.acknowledge) [
  | inl waiting ↦ (
    (ground (arith, waiting), ground (arith, waiting)),
    (ground (arith, waiting), ground (arith, waiting)),
  )
  | inr done ↦
      let size = length-copy_buffer to.in_buffer from.out_buffer in
      (
        (ground (arith, done), ground (arith, done)),
        (ground (arith, done, size), ground (arith, done)),
      )
]

abbrev asked : Com → Com
asked c = record c { signal = record (c.signal) { updated = cleared } }

flip_first_cases :
    (l : Link)
    → (flip_first l
        ≡ record l { client = put_port l.client (asked (port l.client)); firstrun = false })
      ⊎ (flip_first l ≡ l)
unfolding flip_first
flip_first_cases l = elim (Bool-cases l.firstrun) [
  | inl first ↦ inl (rw first refl)
  | inr later ↦ inr (rw later refl)
]

unfoldable pub Runs : Serial → Serial → Link → Type 0
Runs s t l = Run fpga s l.client × Run mcu t l.host

flip_first-Runs : (s t : Serial) (l : Link) → Runs s t l → Runs s t (flip_first l)
unfolding Runs
flip_first-Runs s t l (c, h) = elim (flip_first_cases l) [
  | inl e ↦ rw e (refill (asked (port l.client)) c refl refl, h)
  | inr e ↦ rw e (c, h)
]

client_funct-Runs : (s t : Serial) (l : Link) → Runs s t l → Runs s t (client_funct l)
unfolding Runs client_funct
client_funct-Runs s t l r =
    let (c, h) = flip_first-Runs s t l r in
    let m = flip_first l in
    let (from, to) = carry-IsRefill (port m.client) (port m.host) in
    (refill _ c (from.0) (from.1), refill _ h (to.0) (to.1))

host_funct-Runs : (s t : Serial) (l : Link) → Runs s t l → Runs s t (host_funct l)
unfolding Runs host_funct
host_funct-Runs s t l (c, h) =
    let (from, to) = carry-IsRefill (port l.host) (port l.client) in
    (refill _ c (to.0) (to.1), refill _ h (from.0) (from.1))

pub Linked-Run : {l m : Link} → Linked l m → Runs l.client l.host m
unfolding Runs
Linked-Run begins = (Run.start, Run.start)
Linked-Run (client_turns m s r e) = let (c, h) = Linked-Run r in (Run.turn m.client s c e, h)
Linked-Run (host_turns m s r e) = let (c, h) = Linked-Run r in (c, Run.turn m.host s h e)
Linked-Run {l} (carries_down m r) = client_funct-Runs l.client l.host m (Linked-Run r)
Linked-Run {l} (carries_up m r) = host_funct-Runs l.client l.host m (Linked-Run r)
Linked-Run (client_resolves m y r f) =
    let (c, h) = Linked-Run r in
    (Run.others m.client (port m.client).in_buffer (port m.client).signal y c refl f, h)
Linked-Run (host_resolves m y r f) =
    let (c, h) = Linked-Run r in
    (c, Run.others m.host (port m.host).in_buffer (port m.host).signal y h refl f)

copy_buffer_lem :
    (target source : List ℕ) → length target ≡ length source → copy_buffer target source ≡ source
unfolding copy_buffer
copy_buffer_lem [] [] e = refl
copy_buffer_lem [] (y ∷ source) e = absurd (omega arith)
copy_buffer_lem (x ∷ target) [] e = absurd (omega arith)
copy_buffer_lem (x ∷ target) (y ∷ source) e =
    ap (λ (l : List ℕ). y ∷ l) (copy_buffer_lem target source (omega arith))

-- The bytes of a sender that has acknowledged are in the receiver's port, which is told.
IsCarried : Com → Com → Type 0
IsCarried from to =
    from.signal.acknowledge ≡ cleared
    → length to.in_buffer ≡ length from.out_buffer
    → ((carry from to).1.in_buffer ≡ from.out_buffer)
      × ((carry from to).1.signal.updated ≡ cleared)
      × ((carry from to).0.signal.acknowledge ≡ raised)

carry-IsCarried : (from to : Com) → IsCarried from to
unfolding carry IsCarried
carry-IsCarried from to done size =
    let copied = copy_buffer_lem to.in_buffer from.out_buffer size in
    (ground (arith, done, copied), ground (arith, done), ground (arith, done))

flip_first_port :
    (l : Link)
    → ((flip_first l).host ≡ l.host)
      × ((port (flip_first l).client).out_buffer ≡ (port l.client).out_buffer)
      × ((port (flip_first l).client).signal.acknowledge ≡ (port l.client).signal.acknowledge)
flip_first_port l = elim (flip_first_cases l) [
  | inl e ↦ rw e (refl, refl, refl)
  | inr e ↦ rw e (refl, refl, refl)
]

-- A byte on its way: where the sender has acknowledged and the buffers have one size, the wire puts
-- what the sender's out-buffer holds into the receiver's in-buffer, tells the receiver, and takes
-- the sender's acknowledge back.
pub client_funct-host_funct :
    (l : Link)
    → ((port l.client).signal.acknowledge ≡ cleared
        → length (port l.host).in_buffer ≡ length (port l.client).out_buffer
        → let m = client_funct l in
          ((port m.host).in_buffer ≡ (port l.client).out_buffer)
          × ((port m.host).signal.updated ≡ cleared)
          × ((port m.client).signal.acknowledge ≡ raised))
      × ((port l.host).signal.acknowledge ≡ cleared
          → length (port l.client).in_buffer ≡ length (port l.host).out_buffer
          → let m = host_funct l in
            ((port m.client).in_buffer ≡ (port l.host).out_buffer)
            × ((port m.client).signal.updated ≡ cleared)
            × ((port m.host).signal.acknowledge ≡ raised))
unfolding client_funct host_funct IsCarried
client_funct-host_funct l =
    let (host, bytes, flag) = flip_first_port l in
    let m = flip_first l in
    (
      λ done size.
          let same : length (port m.host).in_buffer ≡ length (port m.client).out_buffer =
            ap (λ (s : Serial). length (port s).in_buffer) host ∙ size ∙ ap length (sym bytes) in
          let (copied, told, taken) =
            carry-IsCarried (port m.client) (port m.host) (flag ∙ done) same in
          (copied ∙ bytes, told, taken),
      λ done size. carry-IsCarried (port l.host) (port l.client) done size,
    )

-- Two endpoints that start with nothing locked or in transfer, joined by the wire: whatever order
-- the two event loops, the carrying of bytes and the resolvers of both sides come in, the next step
-- of neither side hangs.
pub event_loop-Linked :
    {l m : Link}
    → IsBooting l.client
    → IsBooting l.host
    → Linked l m
    → (¬ (event_loop fpga m.client ≡ spin)) × (¬ (event_loop mcu m.host ≡ spin))
unfolding Runs
event_loop-Linked {l} {m} v w r =
    let (c, h) = Linked-Run r in
    ((event_loop-Run fpga l.client m.client v c).0, (event_loop-Run mcu l.host m.host w h).0)
