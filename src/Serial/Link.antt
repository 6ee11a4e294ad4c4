-- ===== src/Serial/Link.antt =====
-- The wire of test/test_mcufpga.cpp: `client_funct` and `host_funct`, which carry the bytes of the
-- FPGA to the microcontroller and back.
pub mod Safety
pub mod Token
pub mod Progress
pub mod Channel
pub mod Fifo
use software_on_silicon.Base.{
  ℕ, suc, ◌≡◌, refl, ap, ◌∙◌, arith, Bool, true, false, not, if◌then◌else◌, List, [], ◌∷◌, length,
}
use software_on_silicon.Errors.{ok, spin}
use software_on_silicon.Signals.{test_and_set, cleared, raised}
use software_on_silicon.Com.{Com}
use software_on_silicon.Sync.{Sync}
use software_on_silicon.Sync.Laws.{Framed}
use software_on_silicon.Serial.State.{Role, fpga, mcu, Serial, put_port}
use software_on_silicon.Serial.EventLoop.{event_loop}
use software_on_silicon.Serial.Invariant.{IsBooting, disturb}
use software_on_silicon.Serial.Runs.{Run, over_memory, refilled, event_loop-Run}

-- The endpoints with their ports, and the flag of the first round.
pub record Link : Type 0 where
  pub client : Serial
  pub host : Serial
  pub firstrun : Bool

abbrev pub port : Serial → Com
port s = s.block.uart

-- The loop that copies one buffer into another of the same size.
unfoldable pub copy_buffer : List ℕ → List ℕ → List ℕ
copy_buffer [] source = []
copy_buffer (x ∷ target) [] = x ∷ target
copy_buffer (x ∷ target) (y ∷ source) = y ∷ copy_buffer target source

-- Both functions, from the port of the sender to that of the receiver: the ports after it.
unfoldable pub carry : Com → Com → Com × Com
unfolding copy_buffer
carry from to =
    let (waiting, f) = test_and_set from.signal.acknowledge in
    let taken = record from { signal = record (from.signal) { acknowledge = f } } in
    if not waiting
    then (
      taken,
      record to {
        in_buffer = copy_buffer to.in_buffer from.out_buffer;
        signal = record (to.signal) { updated = cleared };
      },
    )
    else (taken, to)

unfoldable pub flip_first : Link → Link
flip_first l =
    if l.firstrun
    then record l {
      client = put_port l.client (record (port l.client) {
        signal = record ((port l.client).signal) { updated = cleared };
      });
      firstrun = false;
    }
    else l

unfoldable pub client_funct : Link → Link
unfolding flip_first carry
client_funct l =
    let m = flip_first l in
    let (from, to) = carry (port m.client) (port m.host) in
    record m { client = put_port m.client from; host = put_port m.host to }

unfoldable pub host_funct : Link → Link
unfolding carry
host_funct l =
    let (from, to) = carry (port l.host) (port l.client) in
    record l { host = put_port l.host from; client = put_port l.client to }

-- Any interleaving of the event loops of the two sides, of the wire, and of the resolvers, which
-- set and clear the switches of their side and write to its memory.
pub data Linked (l : Link) : Link → Type 0 where
  begins : Linked l l
  client_turns :
      (m : Link) (s : Serial)
      → Linked l m
      → event_loop fpga m.client ≡ ok s
      → Linked l (record m { client = s })
  host_turns :
      (m : Link) (s : Serial)
      → Linked l m
      → event_loop mcu m.host ≡ ok s
      → Linked l (record m { host = s })
  carries_down : (m : Link) → Linked l m → Linked l (client_funct m)
  carries_up : (m : Link) → Linked l m → Linked l (host_funct m)
  client_resolves :
      (m : Link) (y : Sync)
      → Linked l m
      → Framed (over_memory m.client.block.sync y) y
      → Linked l (record m { client = disturb m.client (port m.client) y })
  host_resolves :
      (m : Link) (y : Sync)
      → Linked l m
      → Framed (over_memory m.host.block.sync y) y
      → Linked l (record m { host = disturb m.host (port m.host) y })
