-- ===== src/Serial/Link/Channel.antt =====
-- What the two sides on the wire of test/test_mcufpga.cpp send to each other, byte by byte.
use software_on_silicon.Base.{
  ℕ, ◌<◌, ◌≡◌, refl, sym, ◌∙◌, arith, Bool, false, not, ◌&&◌, ◌||◌, if◌then◌else◌, Bool-cases, inl,
  inr, List, [], ◌∷◌, ◌++◌, length, get_or,
}
use software_on_silicon.Errors.{ok, ok_inj}
use software_on_silicon.Errors.Yields.{Yields-ok}
use software_on_silicon.Serial.State.{Role, fpga, mcu, Serial}
use software_on_silicon.Serial.Queries.{handshake_query}
use software_on_silicon.Serial.EventLoop.{event_loop}
use software_on_silicon.Serial.Frame.{flags}
use software_on_silicon.Serial.Link.{
  Link, port, copy_buffer, client_funct, host_funct, Linked, begins, client_turns, host_turns,
  carries_down, carries_up, client_resolves, host_resolves,
}
use software_on_silicon.Serial.Link.Token.{tokens, Passes, event_loop-Passes, event_loop_waits}

-- The byte that an endpoint finds and the byte that it shows; the buffers have one byte.
abbrev pub byte_in : Serial → ℕ
byte_in s = get_or (port s).in_buffer 0 0

abbrev pub byte_out : Serial → ℕ
byte_out s = get_or (port s).out_buffer 0 0

-- Whether a call of the event loop takes the handshake.
unfoldable pub takes : Role → Serial → Bool
takes role s = handshake_query role s && not (flags s).updated

abbrev pub only_if : Bool → ℕ → List ℕ
only_if test b = if test then b ∷ [] else []

-- The bytes that each side has found when it took the handshake, and that it then has shown, in
-- the order of its turns.
unfoldable pub client_found : {l m : Link} → Linked l m → List ℕ
unfolding takes
client_found begins = []
client_found (client_turns m s r e) =
    client_found r ++ only_if (takes fpga m.client) (byte_in m.client)
client_found (host_turns m s r e) = client_found r
client_found (carries_down m r) = client_found r
client_found (carries_up m r) = client_found r
client_found (client_resolves m y r f) = client_found r
client_found (host_resolves m y r f) = client_found r

unfoldable pub client_shown : {l m : Link} → Linked l m → List ℕ
unfolding takes
client_shown begins = []
client_shown (client_turns m s r e) = client_shown r ++ only_if (takes fpga m.client) (byte_out s)
client_shown (host_turns m s r e) = client_shown r
client_shown (carries_down m r) = client_shown r
client_shown (carries_up m r) = client_shown r
client_shown (client_resolves m y r f) = client_shown r
client_shown (host_resolves m y r f) = client_shown r

unfoldable pub host_found : {l m : Link} → Linked l m → List ℕ
unfolding takes
host_found begins = []
host_found (client_turns m s r e) = host_found r
host_found (host_turns m s r e) = host_found r ++ only_if (takes mcu m.host) (byte_in m.host)
host_found (carries_down m r) = host_found r
host_found (carries_up m r) = host_found r
host_found (client_resolves m y r f) = host_found r
host_found (host_resolves m y r f) = host_found r

unfoldable pub host_shown : {l m : Link} → Linked l m → List ℕ
unfolding takes
host_shown begins = []
host_shown (client_turns m s r e) = host_shown r
host_shown (host_turns m s r e) = host_shown r ++ only_if (takes mcu m.host) (byte_out s)
host_shown (carries_down m r) = host_shown r
host_shown (carries_up m r) = host_shown r
host_shown (client_resolves m y r f) = host_shown r
host_shown (host_resolves m y r f) = host_shown r

-- The bytes on their way: shown and not yet found. Before the first round the client's in-buffer
-- counts as one.
unfoldable pub down : Link → List ℕ
down m =
    only_if (not (flags m.client).acknowledge) (byte_out m.client)
    ++ only_if (not (flags m.host).updated) (byte_in m.host)

unfoldable pub up : Link → List ℕ
up m =
    only_if (not (flags m.host).acknowledge) (byte_out m.host)
    ++ only_if (m.firstrun || not (flags m.client).updated) (byte_in m.client)

pub copy_buffer_first :
    (target source : List ℕ)
    → 0 < length target
    → 0 < length source
    → get_or (copy_buffer target source) 0 0 ≡ get_or source 0 0
unfolding copy_buffer
copy_buffer_first [] source p q = absurd (omega arith)
copy_buffer_first (x ∷ target) [] p q = absurd (omega arith)
copy_buffer_first (x ∷ target) (y ∷ source) p q = refl

-- A call that does not take the handshake changes nothing.
event_loop_untaken : (role : Role) (s : Serial) → takes role s ≡ false → event_loop role s ≡ ok s
unfolding takes event_loop
event_loop_untaken role s e = elim (Bool-cases (handshake_query role s)) [
  | inl on ↦ event_loop_waits role s (ground (arith, e, on))
  | inr off ↦ rw off refl
]

-- Both buffers of a port hold a byte.
unfoldable pub HasRoom : Serial → Type 0
HasRoom s = (0 < length (port s).in_buffer) × (0 < length (port s).out_buffer)

pub client_funct-way :
    (m : Link)
    → tokens m ≡ 1
    → HasRoom m.client
    → HasRoom m.host
    → (down (client_funct m) ≡ down m) × (up (client_funct m) ≡ up m)
unfolding tokens client_funct down up HasRoom
client_funct-way m h c t =
    let copied = copy_buffer_first (port m.host).in_buffer (port m.client).out_buffer (t.0) (c.1) in
    (ground (arith, h, copied), ground (arith, h, copied))

pub host_funct-way :
    (m : Link)
    → tokens m ≡ 1
    → HasRoom m.client
    → HasRoom m.host
    → (down (host_funct m) ≡ down m) × (up (host_funct m) ≡ up m)
unfolding tokens host_funct down up HasRoom
host_funct-way m h c t =
    let copied = copy_buffer_first (port m.client).in_buffer (port m.host).out_buffer (c.0) (t.1) in
    (ground (arith, h, copied), ground (arith, h, copied))

pub client_turn-way :
    (m : Link) (s : Serial)
    → tokens m ≡ 1
    → event_loop fpga m.client ≡ ok s
    → (down (record m { client = s }) ≡ down m ++ only_if (takes fpga m.client) (byte_out s))
      × (up m ≡ only_if (takes fpga m.client) (byte_in m.client) ++ up (record m { client = s }))
unfolding tokens down up takes
client_turn-way m s h e = elim (Bool-cases (takes fpga m.client)) [
  | inl on ↦ elim (Yields-ok _ _ s (event_loop-Passes fpga m.client) e) [
    | Passes.waits u f ↦ absurd (ground (arith, on, u))
    | Passes.closed q f ↦ absurd (ground (arith, on, q))
    | Passes.passes u f ↦ (ground (arith, h, on, u, f), ground (arith, h, on, u, f))
  ]
  | inr off ↦
      let same : s ≡ m.client = ok_inj (sym e ∙ event_loop_untaken fpga m.client off) in
      rw same (ground (arith, off), ground (arith, off))
]

pub host_turn-way :
    (m : Link) (s : Serial)
    → tokens m ≡ 1
    → event_loop mcu m.host ≡ ok s
    → (up (record m { host = s }) ≡ up m ++ only_if (takes mcu m.host) (byte_out s))
      × (down m ≡ only_if (takes mcu m.host) (byte_in m.host) ++ down (record m { host = s }))
unfolding tokens down up takes
host_turn-way m s h e = elim (Bool-cases (takes mcu m.host)) [
  | inl on ↦ elim (Yields-ok _ _ s (event_loop-Passes mcu m.host) e) [
    | Passes.waits u f ↦ absurd (ground (arith, on, u))
    | Passes.closed q f ↦ absurd (ground (arith, on, q))
    | Passes.passes u f ↦ (ground (arith, h, on, u, f), ground (arith, h, on, u, f))
  ]
  | inr off ↦
      let same : s ≡ m.host = ok_inj (sym e ∙ event_loop_untaken mcu m.host off) in
      rw same (ground (arith, off), ground (arith, off))
]
