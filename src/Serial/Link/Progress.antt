-- ===== src/Serial/Link/Progress.antt =====
-- The wire of test/test_mcufpga.cpp goes on carrying bytes: one operation after the other has a
-- byte to take or to show.
use software_on_silicon.Base.{ℕ, zero, suc, ◌≡◌, refl, arith, true, false, ◌⊎◌, inl, inr}
use software_on_silicon.Errors.{Outcome, Severity, ok, aborted, spin}
use software_on_silicon.Errors.Code.{ErrorCode}
use software_on_silicon.Errors.Yields.{Yields}
use software_on_silicon.Signals.{cleared, raised}
use software_on_silicon.Serial.State.{Role, fpga, mcu, Serial}
use software_on_silicon.Serial.Queries.{handshake_query}
use software_on_silicon.Serial.EventLoop.{event_loop}
use software_on_silicon.Serial.Frame.{flags}
use software_on_silicon.Serial.Invariant.{IsBooting}
use software_on_silicon.Serial.Link.{
  Link, port, client_funct, host_funct, Linked, client_turns, host_turns, carries_down, carries_up,
}
use software_on_silicon.Serial.Link.Safety.{event_loop-Linked}
use software_on_silicon.Serial.Link.Token.{tokens, Turn, Linked-Turn, Passes, event_loop-Passes}
use software_on_silicon.Serial.Link.Channel.{byte_in, byte_out, HasRoom, copy_buffer_first}
use software_on_silicon.Serial.Link.Fifo.{Linked-HasRoom}

-- The loop of an endpoint that has been told of a byte returns: the endpoint has taken that back
-- and acknowledged a byte of its own.
pub record Answers (role : Role) (s t : Serial) : Type 0 where
  pub told : (flags s).updated ≡ cleared
  pub returns : event_loop role s ≡ ok t
  pub taken : (flags t).updated ≡ raised
  pub acknowledged : (flags t).acknowledge ≡ cleared

-- One operation that moves the clear flag on, from one state of the link to the next.
pub data Moves (m n : Link) : Type 0 where
  begins_client :
      m.firstrun ≡ true
      → n ≡ client_funct m
      → n.firstrun ≡ false
      → (flags n.client).updated ≡ cleared
      → Moves m n
  client_answers : (t : Serial) → Answers fpga m.client t → n ≡ record m { client = t } → Moves m n
  tells_host :
      (flags m.client).acknowledge ≡ cleared
      → n ≡ client_funct m
      → (flags n.client).acknowledge ≡ raised
      → (flags n.host).updated ≡ cleared
      → byte_in n.host ≡ byte_out m.client
      → Moves m n
  host_answers : (t : Serial) → Answers mcu m.host t → n ≡ record m { host = t } → Moves m n
  tells_client :
      (flags m.host).acknowledge ≡ cleared
      → n ≡ host_funct m
      → (flags n.host).acknowledge ≡ raised
      → (flags n.client).updated ≡ cleared
      → byte_in n.client ≡ byte_out m.host
      → Moves m n

-- What ends the exchange: the client, told of a byte, has closed the link, or the loop of a side
-- that has been told reports an error.
pub data Stops (m : Link) : Type 0 where
  client_closed : (flags m.client).updated ≡ cleared → m.client.vars.sent_sighup ≡ true → Stops m
  client_reports :
      (v : Severity) (e : ErrorCode)
      → (flags m.client).updated ≡ cleared
      → event_loop fpga m.client ≡ aborted v e
      → Stops m
  host_reports :
      (v : Severity) (e : ErrorCode)
      → (flags m.host).updated ≡ cleared
      → event_loop mcu m.host ≡ aborted v e
      → Stops m

-- `k` operations in a row that move the flag on, or fewer up to one of the ends.
pub data Goes : ℕ → Link → Type 0 where
  rests : {m : Link} → Goes zero m
  stops : {k : ℕ} {m : Link} → Stops m → Goes k m
  goes : {k : ℕ} {m : Link} (n : Link) → Moves m n → Goes k n → Goes (suc k) m

-- What a loop that has been told comes to.
answer :
    (role : Role) (s : Serial) (m : Outcome Serial)
    → event_loop role s ≡ m
    → Yields (Passes role s) m
    → (flags s).updated ≡ cleared
    → ¬ (m ≡ spin)
    → ((t : Serial) × Answers role s t)
      ⊎ (((v : Severity) × (c : ErrorCode) × (event_loop role s ≡ aborted v c))
          ⊎ (handshake_query role s ≡ false))
answer role s (ok t) e (Yields.yields _ p) told n = elim p [
  | Passes.waits u _ ↦ absurd (ground (arith, told, u))
  | Passes.closed q _ ↦ inr (inr q)
  | Passes.passes _ f ↦
      inl (t, record { told = told; returns = e; taken = rw f refl; acknowledged = rw f refl })
]
answer role s (aborted v c) e (Yields.reports _ _) told n = inr (inl (v, c, e))
answer role s spin e Yields.hangs told n = absurd (n refl)

closed : (s : Serial) → handshake_query fpga s ≡ false → s.vars.sent_sighup ≡ true
unfolding handshake_query
closed s q = ground (arith, q)

never_closed : (s : Serial) → ¬ (handshake_query mcu s ≡ false)
unfolding handshake_query
never_closed s q = ground (arith, q)

-- The next operation of a state whose turn is known.
abbrev Next : Link → Link → Type 0
Next l m = ((n : Link) × Moves m n × Linked l n) ⊎ Stops m

begins_client_lem : {l : Link} (m : Link) → m.firstrun ≡ true → Linked l m → Next l m
unfolding client_funct
begins_client_lem m e r =
    inl (
      client_funct m,
      begins_client e refl (ground (arith, e)) (ground (arith, e)),
      carries_down m r,
    )

client_lem :
    {l : Link} (m : Link)
    → (flags m.client).updated ≡ cleared
    → ¬ (event_loop fpga m.client ≡ spin)
    → Linked l m
    → Next l m
client_lem m e ends r =
    elim (answer fpga m.client _ refl (event_loop-Passes fpga m.client) e ends) [
      | inl (t, a) ↦
          inl (record m { client = t }, client_answers t a refl, client_turns m t r a.returns)
      | inr (inl (v, c, a)) ↦ inr (client_reports v c e a)
      | inr (inr q) ↦ inr (client_closed e (closed m.client q))
    ]

host_lem :
    {l : Link} (m : Link)
    → (flags m.host).updated ≡ cleared
    → ¬ (event_loop mcu m.host ≡ spin)
    → Linked l m
    → Next l m
host_lem m e ends r = elim (answer mcu m.host _ refl (event_loop-Passes mcu m.host) e ends) [
  | inl (t, a) ↦ inl (record m { host = t }, host_answers t a refl, host_turns m t r a.returns)
  | inr (inl (v, c, a)) ↦ inr (host_reports v c e a)
  | inr (inr q) ↦ absurd (never_closed m.host q)
]

tells_host_lem :
    {l : Link} (m : Link)
    → (flags m.client).acknowledge ≡ cleared
    → HasRoom m.client × HasRoom m.host
    → Linked l m
    → Next l m
unfolding client_funct HasRoom
tells_host_lem m e (c, t) r =
    let copied = copy_buffer_first (port m.host).in_buffer (port m.client).out_buffer (t.0) (c.1) in
    inl (
      client_funct m,
      tells_host e refl (ground (arith, e)) (ground (arith, e)) (ground (arith, e, copied)),
      carries_down m r,
    )

tells_client_lem :
    {l : Link} (m : Link)
    → (flags m.host).acknowledge ≡ cleared
    → HasRoom m.client × HasRoom m.host
    → Linked l m
    → Next l m
unfolding host_funct HasRoom
tells_client_lem m e (c, t) r =
    let copied = copy_buffer_first (port m.client).in_buffer (port m.host).out_buffer (c.0) (t.1) in
    inl (
      host_funct m,
      tells_client e refl (ground (arith, e)) (ground (arith, e)) (ground (arith, e, copied)),
      carries_up m r,
    )

next : {l m : Link} → IsBooting l.client → IsBooting l.host → tokens l ≡ 1 → Linked l m → Next l m
next {l} {m} v w h r =
    let (client_ends, host_ends) = event_loop-Linked v w r in
    let room = Linked-HasRoom v w r in
    elim (Linked-Turn h r) [
      | Turn.first_flip e _ _ _ ↦ begins_client_lem m e r
      | Turn.client_loop e _ _ _ ↦ client_lem m e client_ends r
      | Turn.going_down e _ _ _ ↦ tells_host_lem m e room r
      | Turn.host_loop e _ _ _ ↦ host_lem m e host_ends r
      | Turn.going_up e _ _ _ ↦ tells_client_lem m e room r
    ]

-- Two endpoints that start with nothing locked or in transfer, on the wire with one token between
-- them. Wherever any order of their loops, the wire and the resolvers has brought them, any number
-- of further operations in a row moves the clear flag on: the flip of the first round, the loop of a
-- side that has been told of a byte, which returns, takes that back and acknowledges a byte of its
-- own, and the wire, which takes an acknowledged byte back, puts it into the in-buffer of the other
-- side and tells it. This ends only where a client that has been told has closed the link or the
-- loop of a side that has been told reports an error.
pub Linked-Goes :
    (k : ℕ) {l m : Link}
    → IsBooting l.client
    → IsBooting l.host
    → tokens l ≡ 1
    → Linked l m
    → Goes k m
Linked-Goes zero v w h r = rests
Linked-Goes (suc k) v w h r = elim (next v w h r) [
  | inl (n, a, s) ↦ goes n a (Linked-Goes k v w h s)
  | inr end ↦ stops end
]
