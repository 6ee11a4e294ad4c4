-- ===== src/Block/Exchange.antt =====
-- A sender and a receiver in lockstep, and what a transfer between them comes to.
use software_on_silicon.Base.{ℕ, zero, suc, ◌+◌, ◌<◌, ◌≤◌, ◌≡◌, ◌⊎◌, ap, ◌∙◌, arith, Bool, true}
use native.Mathlib.Decide.{dec_lt}
use software_on_silicon.Errors.{Outcome, ok, ◌>>=◌}
use software_on_silicon.Block.{Block, memory, write_object, read_object}
use software_on_silicon.Block.Sender.{Sent, wire_byte}
use software_on_silicon.Block.Receiver.{Received, stored3}

-- `n` rounds: in each the sender writes a byte and the receiver reads it. Round `k` has its own
-- `write_bits`, since the signals may change from one round to the next.
unfoldable pub exchange : (ℕ → ℕ → ℕ) → ℕ → ℕ → Block → Block → Outcome (Block × Block)
exchange bits zero k s r = ok (s, r)
exchange bits (suc n) k s r = write_object (bits k) s >>= λ wrote.
    read_object r (wire_byte s (wrote.1)) >>= λ r'. exchange bits n (k + 1) (wrote.1) r'

abbrev pub four_times : ℕ → ℕ
four_times zero = 0
four_times (suc m) = suc (suc (suc (suc (four_times m))))

pub round_lem :
    (bits : ℕ → ℕ → ℕ) (n k : ℕ) (s r s' r' : Block)
    → write_object (bits k) s ≡ ok (true, s')
    → read_object r (wire_byte s s') ≡ ok r'
    → exchange bits (suc n) k s r ≡ exchange bits n (k + 1) s' r'
unfolding exchange
round_lem bits n k s r s' r' e e' = rw e (rw e')

-- Three bytes stored from a place where `f` has them.
pub stored3_copied :
    (m f : ℕ → ℕ) (obj x pos i : ℕ)
    → pos ≤ i
    → i < pos + 3
    → stored3 m obj pos (f (x + pos)) (f (x + (pos + 1))) (f (x + (pos + 2))) (obj + i) ≡ f (x + i)
stored3_copied m f obj x pos i le lt = elim (dec_lt pos i) [
  | yes p ↦ elim (dec_lt (pos + 1) i) [
    | yes q ↦ let e : i ≡ pos + 2 = omega arith in rw e (ground arith)
    | no q ↦ let e : i ≡ pos + 1 = omega arith in rw e (ground arith)
  ]
  | no p ↦ let e : i ≡ pos = omega arith in rw e (ground arith)
]

-- Outside the range from `low` up to `high`.
abbrev pub Outside : ℕ → ℕ → ℕ → Type 0
Outside low high a = (a < low) ⊎ (high ≤ a)

pub stored3-Outside :
    (m : ℕ → ℕ) (obj pos b0 b1 b2 a : ℕ)
    → Outside (obj + pos) (obj + (pos + 3)) a
    → stored3 m obj pos b0 b1 b2 a ≡ m a
stored3-Outside m obj pos b0 b1 b2 a out = ground arith

pub Sent-weaken :
    {b c b' : Block} {id : ℕ}
    → c.transfer ≡ b.transfer
    → memory c ≡ memory b
    → Sent c b' id
    → Sent b b' id
Sent-weaken t m h = record {
  released = h.released;
  cleared = h.cleared;
  others = λ j ne. h.others j ne ∙ ap (λ (f : ℕ → Bool). f j) t;
  reported = h.reported;
  quiet = h.quiet;
  rewound = h.rewound;
  aligned = h.aligned;
  coded = h.coded;
  port = h.port;
  unlocked = h.unlocked;
  kept = h.kept ∙ m;
}

pub Received-weaken :
    {b c b' : Block} {id : ℕ} → c.read_lock ≡ b.read_lock → Received c b' id → Received b b' id
Received-weaken t h = record {
  released = h.released;
  unlocked_read = h.unlocked_read;
  others = λ j ne. h.others j ne ∙ ap (λ (f : ℕ → Bool). f j) t;
  reported = h.reported;
  quiet = h.quiet;
  rewound = h.rewound;
  aligned = h.aligned;
  coded = h.coded;
  emptied = h.emptied;
  unlocked = h.unlocked;
}

-- What a transfer of the bytes from `pos` on comes to.
pub record Transferred (sid sobj rid robj size pos : ℕ) (s r s' r' : Block) : Type 0 where
  pub sent : Sent s s' sid
  pub received : Received r r' rid
  pub copied : (i : ℕ) → pos ≤ i → i < size → memory r' (robj + i) ≡ memory s (sobj + i)
  pub outside : (a : ℕ) → Outside (robj + pos) (robj + size) a → memory r' a ≡ memory r a
