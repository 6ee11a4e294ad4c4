-- ===== src/Block/Transfer.antt =====
-- A whole object, from the sender's memory over the wire into the receiver's.
use software_on_silicon.Base.{ℕ, suc, ◌+◌, ◌*◌, ◌<◌, ◌≡◌, refl, ap, ◌∙◌, arith, Bool, true, false}
use mathlib.Core.Path.{fun_ext}
use software_on_silicon.Errors.{Outcome, ok, ◌>>=◌}
use software_on_silicon.Wire.RoundTrip.{IsSignal}
use software_on_silicon.Block.{Block, descriptor, memory, write_object, read_object}
use software_on_silicon.Block.Sender.{Sending, wire_byte}
use software_on_silicon.Block.Receiver.{Receiving, find_read_lock_lem}
use software_on_silicon.Block.Exchange.{exchange, four_times, Received-weaken, Transferred}
use software_on_silicon.Block.Groups.{groups}

-- A receiver that has just been told which object to expect.
pub record Expecting (r : Block) (id obj size : ℕ) : Type 0 where
  pub idle : r.receive_lock ≡ false
  pub expected : r.read_lock id ≡ true
  pub first : (j : ℕ) → j < id → r.read_lock j ≡ false
  pub known : id < r.sync.descriptors.count
  pub address : (descriptor r id).obj ≡ obj
  pub extent : (descriptor r id).obj_size ≡ size
  pub rewound : r.read_destination_pos ≡ 0
  pub aligned : r.read4minus1 ≡ 0
  pub coded : r.codec.read_count ≡ 0
  pub emptied : r.codec.read_assembly ≡ 0
  pub unlocked : r.sync.bus.descriptors_updated ≡ false

-- The first call of `read_object` finds the object.
read_object_found :
    (r : Block) (id obj size byte : ℕ)
    → Expecting r id obj size
    → read_object r byte
      ≡ read_object (record r { receive_lock = true; read_destination = id }) byte
unfolding read_object
read_object_found r id obj size byte x = ground (
  arith,
  x.idle,
  find_read_lock_lem r.sync.descriptors.count 0 id r (omega arith) (omega (arith, x.known))
      x.expected x.first x.rewound,
)

exchange_found :
    (bits : ℕ → ℕ → ℕ) (n k : ℕ) (s r : Block) (id obj size : ℕ)
    → Expecting r id obj size
    → exchange bits (suc n) k s r
      ≡ exchange bits (suc n) k s (record r { receive_lock = true; read_destination = id })
unfolding exchange
exchange_found bits n k s r id obj size x =
    ap (λ (next : Bool × Block → Outcome (Block × Block)). write_object (bits k) s >>= next)
      (fun_ext λ wrote.
        ap (λ (m : Outcome Block). m >>= λ r'. exchange bits n (k + 1) (wrote.1) r')
          (read_object_found r id obj size (wire_byte s (wrote.1)) x))

-- An object of `3 * (m + 1)` bytes goes from the sender's memory into the receiver's: where the
-- sender has locked the object for sending and stands at its first byte, and the receiver has
-- read-locked an object of the same size and no object with a smaller id, `4 * (m + 1)` rounds of
-- `write_object` and `read_object` run to their end with no error, whatever signals travel in the
-- two high bits. Then the receiver's object holds the sender's bytes and the rest of its memory
-- and the sender's memory are unchanged; the sender's send lock and the object's transfer flag are
-- released and the write is acknowledged; the receiver's locks are released and the read is
-- acknowledged; and both sides stand at the start of a group again.
pub object_transfer :
    (bits : ℕ → ℕ → ℕ) (signal : ℕ → ℕ)
    → ((k : ℕ) → IsSignal (bits k) (signal k))
    → (sid sobj rid robj size m : ℕ) (s r : Block) → Sending s sid sobj size 0 0
    → Expecting r rid robj size
    → 3 * suc m ≡ size
    → ((i : ℕ) → i < size → memory s (sobj + i) < 256)
    → (s' r' : Block) × (exchange bits (four_times (suc m)) 0 s r ≡ ok (s', r'))
      × Transferred sid sobj rid robj size 0 s r s' r'
object_transfer bits signal given sid sobj rid robj size m s r ss x e bytes =
    let found = record r { receive_lock = true; read_destination = rid } in
    let receiving : Receiving found rid robj size 0 0 0 = record {
      locked = refl;
      destination = refl;
      address = x.address;
      extent = x.extent;
      small = ss.small;
      position = x.rewound;
      counted = x.aligned;
      coded = x.coded;
      assembly = x.emptied;
      unlocked = x.unlocked;
    } in
    let (s', r', run, t) =
      groups bits signal given sid sobj rid robj size m 0 0 s found ss receiving (omega arith)
        bytes in
    (
      s',
      r',
      exchange_found bits (suc (suc (suc (four_times m)))) 0 s r rid robj size x ∙ run,
      record {
        sent = t.sent;
        received = Received-weaken refl t.received;
        copied = t.copied;
        outside = t.outside;
      },
    )
