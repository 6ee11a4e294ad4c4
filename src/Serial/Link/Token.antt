-- ===== src/Serial/Link/Token.antt =====
-- The handshake flags of the two ports on the wire of test/test_mcufpga.cpp: who may go on.
use software_on_silicon.Base.{
  ℕ, ◌+◌, ◌≡◌, refl, ap, ◌∙◌, arith, Bool, true, false, not, if◌then◌else◌, inl, inr, Bool-cases,
}
use software_on_silicon.Errors.{ok}
use software_on_silicon.Errors.Yields.{Yields, >>=-Yields, if-Yields, Yields-ok}
use software_on_silicon.Signals.{DoubleHandShake, cleared, raised}
use software_on_silicon.Com.{Com}
use software_on_silicon.Serial.State.{Role, fpga, mcu, Serial}
use software_on_silicon.Serial.Queries.{handshake_query}
use software_on_silicon.Serial.EventLoop.{handshake, handshake_ack, loop_in, loop_out, event_loop}
use software_on_silicon.Serial.Frame.{flags, loop_in-flags}
use software_on_silicon.Serial.Frame.Outgoing.{loop_out-flags}
use software_on_silicon.Serial.Link.{
  Link, port, carry, flip_first, client_funct, host_funct, Linked, begins, client_turns, host_turns,
  carries_down, carries_up, client_resolves, host_resolves,
}

-- The flags after a step of an endpoint: those before it where the endpoint has not been told of a
-- byte or answers none any more, else with that taken back and its own byte acknowledged.
pub data Passes (role : Role) (s t : Serial) : Type 0 where
  waits : (flags s).updated ≡ raised → flags t ≡ flags s → Passes role s t
  closed : handshake_query role s ≡ false → flags t ≡ flags s → Passes role s t
  passes :
      (flags s).updated ≡ cleared
      → flags t ≡ record (flags s) { updated = raised; acknowledge = cleared }
      → Passes role s t

pub event_loop-Passes : (role : Role) (s : Serial) → Yields (Passes role s) (event_loop role s)
unfolding event_loop handshake handshake_ack
event_loop-Passes role s =
    let t = (handshake s).1 in
    if-Yields _ (handshake_query role s) _ _
      (λ _.
        if-Yields _ (not s.block.uart.signal.updated) _ _
          (λ ready.
            >>=-Yields (λ u. flags u ≡ flags t) _ (loop_in role t) _ (loop_in-flags role t)
              λ u hu.
                >>=-Yields (λ v. flags v ≡ flags u) _ (loop_out role u) _ (loop_out-flags role u)
                  λ v hv.
                    Yields.yields _ (passes (ground (arith, ready)) (ap acknowledged (hv ∙ hu))))
          (λ busy. Yields.yields _ (waits (ground (arith, busy)) (ground (arith, busy)))))
      (λ off. Yields.yields s (closed off refl))
  where
    acknowledged : DoubleHandShake → DoubleHandShake
    acknowledged g = record g { acknowledge = cleared }

unfoldable token : Bool → ℕ
token held = if held then 1 else 0

-- The flags that are clear, and the flag of the first round that is yet to come.
unfoldable pub tokens : Link → ℕ
unfolding token
tokens l =
    token l.firstrun
    + token (not (flags l.client).updated)
    + token (not (flags l.client).acknowledge)
    + token (not (flags l.host).updated)
    + token (not (flags l.host).acknowledge)

client_turns-tokens :
    (m : Link) (s : Serial)
    → Passes fpga m.client s
    → tokens m ≡ 1
    → tokens (record m { client = s }) ≡ 1
unfolding tokens
client_turns-tokens m s (waits u e) h = rw e h
client_turns-tokens m s (closed q e) h = rw e h
client_turns-tokens m s (passes u e) h = rw e (ground (arith, u, h))

host_turns-tokens :
    (m : Link) (s : Serial)
    → Passes mcu m.host s
    → tokens m ≡ 1
    → tokens (record m { host = s }) ≡ 1
unfolding tokens
host_turns-tokens m s (waits u e) h = rw e h
host_turns-tokens m s (closed q e) h = rw e h
host_turns-tokens m s (passes u e) h = rw e (ground (arith, u, h))

client_funct-tokens : (m : Link) → tokens m ≡ 1 → tokens (client_funct m) ≡ 1
unfolding tokens client_funct
client_funct-tokens m h = ground (arith, h)

host_funct-tokens : (m : Link) → tokens m ≡ 1 → tokens (host_funct m) ≡ 1
unfolding tokens host_funct
host_funct-tokens m h = ground (arith, h)

-- No step makes a token or loses one: two endpoints on the wire with one token between them keep
-- just one of the five flags, whatever order the two event loops, the carrying of bytes and the
-- resolvers of both sides come in.
pub Linked-tokens : {l m : Link} → tokens l ≡ 1 → Linked l m → tokens m ≡ 1
unfolding tokens
Linked-tokens h begins = h
Linked-tokens h (client_turns m s r e) =
    client_turns-tokens m s (Yields-ok _ _ s (event_loop-Passes fpga m.client) e)
      (Linked-tokens h r)
Linked-tokens h (host_turns m s r e) =
    host_turns-tokens m s (Yields-ok _ _ s (event_loop-Passes mcu m.host) e) (Linked-tokens h r)
Linked-tokens h (carries_down m r) = client_funct-tokens m (Linked-tokens h r)
Linked-tokens h (carries_up m r) = host_funct-tokens m (Linked-tokens h r)
Linked-tokens h (client_resolves m y r f) = Linked-tokens h r
Linked-tokens h (host_resolves m y r f) = Linked-tokens h r

-- An endpoint that has not been told of a byte stays as it is.
pub event_loop_waits :
    (role : Role) (s : Serial) → (flags s).updated ≡ raised → event_loop role s ≡ ok s
unfolding event_loop handshake
event_loop_waits role s h = ground (arith, h)

-- The wire takes no byte that has not been acknowledged.
carry_waits : (from to : Com) → from.signal.acknowledge ≡ raised → carry from to ≡ (from, to)
unfolding carry
carry_waits from to h = ground (arith, h)

client_funct_waits :
    (m : Link) → m.firstrun ≡ false → (flags m.client).acknowledge ≡ raised → client_funct m ≡ m
unfolding client_funct flip_first
client_funct_waits m later h = rw later (rw (carry_waits (port m.client) (port m.host) h) refl)

host_funct_waits : (m : Link) → (flags m.host).acknowledge ≡ raised → host_funct m ≡ m
unfolding host_funct
host_funct_waits m h = rw (carry_waits (port m.host) (port m.client) h) refl

-- Whose turn it is: the flag that is clear, with the operations that leave everything as it is.
pub data Turn (m : Link) : Type 0 where
  first_flip :
      m.firstrun ≡ true
      → event_loop fpga m.client ≡ ok m.client
      → event_loop mcu m.host ≡ ok m.host
      → host_funct m ≡ m
      → Turn m
  client_loop :
      (flags m.client).updated ≡ cleared
      → event_loop mcu m.host ≡ ok m.host
      → client_funct m ≡ m
      → host_funct m ≡ m
      → Turn m
  going_down :
      (flags m.client).acknowledge ≡ cleared
      → event_loop fpga m.client ≡ ok m.client
      → event_loop mcu m.host ≡ ok m.host
      → host_funct m ≡ m
      → Turn m
  host_loop :
      (flags m.host).updated ≡ cleared
      → event_loop fpga m.client ≡ ok m.client
      → client_funct m ≡ m
      → host_funct m ≡ m
      → Turn m
  going_up :
      (flags m.host).acknowledge ≡ cleared
      → event_loop fpga m.client ≡ ok m.client
      → event_loop mcu m.host ≡ ok m.host
      → client_funct m ≡ m
      → Turn m

tokens-Turn : (m : Link) → tokens m ≡ 1 → Turn m
unfolding tokens
tokens-Turn m h =
    let client_waits = event_loop_waits fpga m.client in
    let host_waits = event_loop_waits mcu m.host in
    elim (Bool-cases m.firstrun) [
      | inl e ↦
          first_flip e (client_waits (ground (arith, h, e))) (host_waits (ground (arith, h, e)))
            (host_funct_waits m (ground (arith, h, e)))
      | inr later ↦ elim (Bool-cases (flags m.client).updated) [
        | inr e ↦
            client_loop e (host_waits (ground (arith, h, e)))
              (client_funct_waits m later (ground (arith, h, e)))
              (host_funct_waits m (ground (arith, h, e)))
        | inl e1 ↦ elim (Bool-cases (flags m.client).acknowledge) [
          | inr e ↦
              going_down e (client_waits e1) (host_waits (ground (arith, h, e)))
                (host_funct_waits m (ground (arith, h, e)))
          | inl e2 ↦ elim (Bool-cases (flags m.host).updated) [
            | inr e ↦
                host_loop e (client_waits e1) (client_funct_waits m later e2)
                  (host_funct_waits m (ground (arith, h, e)))
            | inl e3 ↦
                going_up (ground (arith, h, later, e1, e2, e3)) (client_waits e1) (host_waits e3)
                  (client_funct_waits m later e2)
          ]
        ]
      ]
    ]

-- Two endpoints on the wire with one token between them: whatever order the two event loops, the
-- carrying of bytes and the resolvers come in, it is the turn of the first round's flip, the
-- client's loop, the wire down, the host's loop or the wire up. The flag of the one whose turn it
-- is is clear, and a step of any other loop or direction changes nothing.
pub Linked-Turn : {l m : Link} → tokens l ≡ 1 → Linked l m → Turn m
Linked-Turn {l} {m} h r = tokens-Turn m (Linked-tokens h r)
