-- ===== src/Block/Groups.antt =====
-- The groups of an object, one after the other.
use software_on_silicon.Base.{
  ℕ, zero, suc, ◌+◌, ◌*◌, ◌%◌, ◌^◌, ◌<◌, ◌≤◌, ◌≡◌, inl, inr, ap, ◌∙◌, arith,
}
use native.Mathlib.Decide.{dec_lt}
use software_on_silicon.Errors.{ok}
use software_on_silicon.Wire.RoundTrip.{IsSignal}
use software_on_silicon.Block.{Block, memory}
use software_on_silicon.Block.Sender.{Sending, write_three, padding_step, last_step, wire_byte}
use software_on_silicon.Block.Receiver.{
  Receiving, stored3, gather_first, gather_second, gather_third, store_middle, store_last,
}
use software_on_silicon.Block.Exchange.{
  exchange, four_times, round_lem, stored3_copied, stored3-Outside, Outside, Sent-weaken,
  Received-weaken, Transferred,
}

module _ (bits : ℕ → ℕ → ℕ) (signal : ℕ → ℕ) (given : (k : ℕ) → IsSignal (bits k) (signal k))
    (sid sobj rid robj size : ℕ) where
  -- The first three rounds of a group, and what the fourth carries.
  record Prefix (k pos : ℕ) (s r : Block) : Type 0 where
    s3 : Block
    r3 : Block
    high : ℕ
    runs : (n : ℕ) → exchange bits (suc (suc (suc n))) k s r ≡ exchange bits n (k + 1 + 1 + 1) s3 r3
    sending : Sending s3 sid sobj size (pos + 3) 3
    receiving : Receiving r3 rid robj size pos 3 (high * 2 ^ 6)
    carried :
        high * 64 + s3.codec.write_assembly 2 % 64
        ≡ (memory s (sobj + pos) * 256 + memory s (sobj + (pos + 1))) * 256
          + memory s (sobj + (pos + 2))
    s_kept : memory s3 ≡ memory s
    r_kept : memory r3 ≡ memory r
    transfer_kept : s3.transfer ≡ s.transfer
    read_lock_kept : r3.read_lock ≡ r.read_lock

  prefix_step :
      (k pos : ℕ) (s r : Block)
      → Sending s sid sobj size pos 0
      → Receiving r rid robj size pos 0 0
      → pos + 3 ≤ size
      → memory s (sobj + pos) < 256
      → memory s (sobj + (pos + 1)) < 256
      → memory s (sobj + (pos + 2)) < 256
      → Prefix k pos s r
  prefix_step k pos s r ss rr room h0 h1 h2 =
      let k1 = k + 1 in
      let k2 = k + 1 + 1 in
      let g =
        write_three (bits k) (bits k1) (bits k2) (signal k) (signal k1) (signal k2) (given k)
          (given k1) (given k2) s sid sobj size pos ss room h0 h1 h2 in
      let w0 = wire_byte s g.b1 in
      let w1 = wire_byte g.b1 g.b2 in
      let w2 = wire_byte g.b2 g.b3 in
      let (r1, e1, n1, m1, l1) = gather_first r rid robj size pos w0 rr in
      let (r2, e2, n2, m2, l2) = gather_second r1 rid robj size pos w1 (w0 % 64) n1 in
      let (r3, e3, n3, m3, l3) = gather_third r2 rid robj size pos w2 (w0 % 64 * 64 + w1 % 64) n2 in
      record {
        s3 = g.b3;
        r3 = r3;
        high = (w0 % 64 * 64 + w1 % 64) * 64 + w2 % 64;
        runs = λ n.
            round_lem bits (suc (suc n)) k s r g.b1 r1 g.first e1
            ∙ round_lem bits (suc n) k1 g.b1 r1 g.b2 r2 g.second e2
            ∙ round_lem bits n k2 g.b2 r2 g.b3 r3 g.third e3;
        sending = g.sending;
        receiving = n3;
        carried = omega (arith, g.byte0, g.byte1, g.byte2, g.left);
        s_kept = g.kept;
        r_kept = m3 ∙ m2 ∙ m1;
        transfer_kept = g.transfer_kept;
        read_lock_kept = l3 ∙ l2 ∙ l1;
      }

  last_group :
      (k pos : ℕ) (s r : Block)
      → Prefix k pos s r
      → memory s (sobj + pos) < 256
      → memory s (sobj + (pos + 1)) < 256
      → memory s (sobj + (pos + 2)) < 256
      → pos + 3 ≡ size
      → (s' r' : Block) × (exchange bits 4 k s r ≡ ok (s', r'))
        × Transferred sid sobj rid robj size pos s r s' r'
  unfolding exchange
  last_group k pos s r p h0 h1 h2 done =
      let k3 = k + 1 + 1 + 1 in
      let f = memory s in
      let (s', e, sent, w) =
        last_step (bits k3) (signal k3) (given k3) p.s3 sid sobj size (pos + 3) p.sending done in
      let (r', e', received, m) =
        store_last p.r3 rid robj size pos p.high (wire_byte p.s3 s') (f (sobj + pos))
          (f (sobj + (pos + 1))) (f (sobj + (pos + 2))) h0 h1 h2 p.receiving
          (omega (arith, w, p.carried)) done in
      (
        s',
        r',
        p.runs 1 ∙ round_lem bits 0 k3 p.s3 p.r3 s' r' e e',
        record {
          sent = Sent-weaken p.transfer_kept p.s_kept sent;
          received = Received-weaken p.read_lock_kept received;
          copied = λ i le lt.
              ap (λ (g : ℕ → ℕ). g (robj + i)) m
              ∙ stored3_copied (memory p.r3) f robj sobj pos i le (omega arith);
          outside = λ a out.
              ap (λ (g : ℕ → ℕ). g a) m
              ∙ stored3-Outside (memory p.r3) robj pos (f (sobj + pos)) (f (sobj + (pos + 1)))
                  (f (sobj + (pos + 2))) a (rw done out)
              ∙ ap (λ (g : ℕ → ℕ). g a) p.r_kept;
        },
      )

  middle_group :
      (k pos : ℕ) (s r : Block)
      → Prefix k pos s r
      → memory s (sobj + pos) < 256
      → memory s (sobj + (pos + 1)) < 256
      → memory s (sobj + (pos + 2)) < 256
      → pos + 3 < size
      → (s' r' : Block) × ((n : ℕ)
          → exchange bits (suc (suc (suc (suc n)))) k s r
            ≡ exchange bits n (k + 1 + 1 + 1 + 1) s' r')
        × Sending s' sid sobj size (pos + 3) 0
        × Receiving r' rid robj size (pos + 3) 0 0
        × (memory s' ≡ memory s)
        × (s'.transfer ≡ s.transfer)
        × (r'.read_lock ≡ r.read_lock)
        × (memory r'
            ≡ stored3
                (memory r)
                robj
                pos
                (memory s (sobj + pos))
                (memory s (sobj + (pos + 1)))
                (memory s (sobj + (pos + 2))))
  middle_group k pos s r p h0 h1 h2 room =
      let k3 = k + 1 + 1 + 1 in
      let f = memory s in
      let (s', e, sending, m', w, t) =
        padding_step (bits k3) (signal k3) (given k3) p.s3 sid sobj size (pos + 3) p.sending room in
      let (r', e', receiving, m, l) =
        store_middle p.r3 rid robj size pos p.high (wire_byte p.s3 s') (f (sobj + pos))
          (f (sobj + (pos + 1))) (f (sobj + (pos + 2))) h0 h1 h2 p.receiving
          (omega (arith, w, p.carried)) room in
      (
        s',
        r',
        λ n. p.runs (suc n) ∙ round_lem bits n k3 p.s3 p.r3 s' r' e e',
        sending,
        receiving,
        m' ∙ p.s_kept,
        t ∙ p.transfer_kept,
        l ∙ p.read_lock_kept,
        rw (← p.r_kept) m,
      )

  further :
      (pos a : ℕ)
      → Outside (robj + pos) (robj + size) a
      → Outside (robj + (pos + 3)) (robj + size) a
  further pos a (inl low) = inl (omega arith)
  further pos a (inr high) = inr high

  nearer :
      (pos m a : ℕ)
      → pos + 3 * suc (suc m) ≡ size
      → Outside (robj + pos) (robj + size) a
      → Outside (robj + pos) (robj + (pos + 3)) a
  nearer pos m a e (inl low) = inl low
  nearer pos m a e (inr high) = inr (omega arith)

  pub groups :
      (m k pos : ℕ) (s r : Block)
      → Sending s sid sobj size pos 0
      → Receiving r rid robj size pos 0 0
      → pos + 3 * suc m ≡ size
      → ((i : ℕ) → i < size → memory s (sobj + i) < 256)
      → (s' r' : Block) × (exchange bits (four_times (suc m)) k s r ≡ ok (s', r'))
        × Transferred sid sobj rid robj size pos s r s' r'
  groups zero k pos s r ss rr e bytes =
      let h0 = bytes pos (omega arith) in
      let h1 = bytes (pos + 1) (omega arith) in
      let h2 = bytes (pos + 2) (omega arith) in
      last_group k pos s r (prefix_step k pos s r ss rr (omega arith) h0 h1 h2) h0 h1 h2
        (omega arith)
  groups (suc m) k pos s r ss rr e bytes =
      let h0 = bytes pos (omega arith) in
      let h1 = bytes (pos + 1) (omega arith) in
      let h2 = bytes (pos + 2) (omega arith) in
      let (s4, r4, runs, sending, receiving, sm, st, rl, rm) =
        middle_group k pos s r (prefix_step k pos s r ss rr (omega arith) h0 h1 h2) h0 h1 h2
          (omega arith) in
      let bytes4 : (i : ℕ) → i < size → memory s4 (sobj + i) < 256 = λ i lt. rw sm (bytes i lt) in
      let (s', r', run, t) =
        groups m (k + 1 + 1 + 1 + 1) (pos + 3) s4 r4 sending receiving (omega arith) bytes4 in
      (
        s',
        r',
        runs (four_times (suc m)) ∙ run,
        record {
          sent = Sent-weaken st sm t.sent;
          received = Received-weaken rl t.received;
          copied = λ i le lt. elim (dec_lt i (pos + 3)) [
            | yes early ↦
                t.outside (robj + i) (inl (omega arith))
                ∙ ap (λ (g : ℕ → ℕ). g (robj + i)) rm
                ∙ stored3_copied (memory r) (memory s) robj sobj pos i le early
            | no late ↦ t.copied i (omega arith) lt ∙ ap (λ (g : ℕ → ℕ). g (sobj + i)) sm
          ];
          outside = λ a out.
              t.outside a (further pos a out)
              ∙ ap (λ (g : ℕ → ℕ). g a) rm
              ∙ stored3-Outside (memory r) robj pos (memory s (sobj + pos))
                  (memory s (sobj + (pos + 1))) (memory s (sobj + (pos + 2))) a
                  (nearer pos m a e out);
        },
      )
