-- ===== src/Memory/Producer.antt =====
-- `Functor1` of test/test_ringtomemory.cpp: a host that writes a blink at a time, of two kinds in
-- turn, and the ring buffer that carries it into the memory.
use software_on_silicon.Base.{
  ℕ, zero, suc, ◌+◌, ◌*◌, ◌≤◌, ◌≡◌, refl, sym, ap, ◌∙◌, arith, Bool, true, false, ◌==◌,
  if◌then◌else◌, List, [], ◌∷◌, ◌++◌, length, length-append, length-set, set, append_assoc,
  append-nil,
}
use software_on_silicon.Errors.{Outcome, ok, ◌>>=◌}
use software_on_silicon.Errors.Yields.{Yields, >>=-Yields, ok-Yields, Yields-ok}
use software_on_silicon.Ring.{RingBus, write_interleaved, event_loop}
use software_on_silicon.Ring.Fifo.{IsRing, IsTold, queue, write_interleaved-queue}
use software_on_silicon.Ring.Producer.{copies, length-copies}
use software_on_silicon.Memory.{Blocker, write_block, transfer_all, ring_to_memory}
use software_on_silicon.Memory.Writer.{IsQuiet, log, joined, ring_to_memory-log}
use software_on_silicon.Memory.Settled.{length-cells_from}

-- `'*'` and `'_'`.
abbrev pub star : ℕ
star = 0x2A

abbrev pub underscore : ℕ
underscore = 0x5F

-- A blink of `size` samples of which the first is given and all others are zero.
unfoldable pub blink_samples : ℕ → ℕ → List ℕ
unfolding copies
blink_samples size first = set (copies size 0) 0 first

-- The `switch` over the count: the blink, and the count after it.
unfoldable pub next_blink : ℕ → ℕ → List ℕ × ℕ
unfolding blink_samples
next_blink size count =
    if count == 0
    then (blink_samples size star, count + 1)
    else if count == 1
    then (blink_samples size underscore, 0)
    else (copies size 0, count)

-- Rounds of the program: the host writes a blink, then the loop of the ring buffer takes a step. The
-- count, the bus of the ring and the memory after them.
unfoldable pub produce :
    ℕ → ℕ → ℕ → RingBus (List ℕ) → Blocker ℕ → Outcome (ℕ × RingBus (List ℕ) × Blocker ℕ)
unfolding next_blink write_interleaved ring_to_memory
produce zero size count r b = ok (count, r, b)
produce (suc n) size count r b =
    let (value, next) = next_blink size count in
    write_interleaved r value >>= λ s. ring_to_memory s b >>= λ a. produce n size next (a.0) (a.1)

-- The samples of the rounds, and the count after them.
unfoldable pub blinks : ℕ → ℕ → ℕ → List ℕ
unfolding next_blink
blinks zero size count = []
blinks (suc n) size count = (next_blink size count).0 ++ blinks n size ((next_blink size count).1)

length-next_blink : (size count : ℕ) → length ((next_blink size count).0) ≡ size
unfolding next_blink blink_samples
length-next_blink size count =
    let long = length-copies {A = ℕ} size 0 in
    let starred = length-set (copies {A = ℕ} size 0) 0 star in
    let underscored = length-set (copies {A = ℕ} size 0) 0 underscore in
    ground (arith, long, starred, underscored)

write_block-size : (b : Blocker ℕ) (xs : List ℕ) → Yields (λ c. c.size ≡ b.size) (write_block b xs)
unfolding write_block
write_block-size b xs = ok-Yields _ _ λ c e. ground (arith, e)

transfer_all-size :
    (xs : List (List ℕ)) (b : Blocker ℕ) → Yields (λ c. c.size ≡ b.size) (transfer_all xs b)
unfolding transfer_all
transfer_all-size [] b = Yields.yields b refl
transfer_all-size (x ∷ xs) b =
    >>=-Yields (λ c. c.size ≡ b.size) (λ c. c.size ≡ b.size) (write_block b x) _
      (write_block-size b x) λ c h. rw (sym h) (transfer_all-size xs c)

ring_to_memory-size :
    (r : RingBus (List ℕ)) (b : Blocker ℕ) → Yields (λ a. a.1.size ≡ b.size) (ring_to_memory r b)
unfolding ring_to_memory
ring_to_memory-size r b =
    >>=-Yields (λ a. Unit) (λ a. a.1.size ≡ b.size) (event_loop r) _ (ok-Yields _ _ λ _ _. tt)
      λ a _.
        >>=-Yields (λ c. c.size ≡ b.size) (λ a. a.1.size ≡ b.size) (transfer_all (a.0) b) _
          (transfer_all-size (a.0) b) λ c h. Yields.yields _ h

length-log : (b : Blocker ℕ) → length (log b) ≡ b.bk_start
unfolding log
length-log b = length-cells_from b.bk_start 0 b.cells

-- One round: with room for a blink it is appended to the log, and the ring buffer is empty again.
round :
    (value : List ℕ) (r : RingBus (List ℕ)) (b : Blocker ℕ)
    → IsRing r
    → queue r ≡ []
    → IsQuiet b
    → b.bk_start + length value ≤ b.size
    → (s : RingBus (List ℕ)) × (r' : RingBus (List ℕ)) × (b' : Blocker ℕ) × (write_interleaved r
          value
        ≡ ok s)
      × (ring_to_memory s b ≡ ok (r', b'))
      × IsRing r'
      × (queue r' ≡ [])
      × IsQuiet b'
      × (log b' ≡ log b ++ value)
      × (b'.size ≡ b.size)
      × (b'.bk_start ≡ b.bk_start + length value)
unfolding IsTold joined
round value r b w empty quiet room =
    let short = ap length empty in
    let (s, e, w', q, n) = (write_interleaved-queue r value w).0 (omega (arith, short, w.wide)) in
    let one : queue s ≡ value ∷ [] = q ∙ ap (λ (l : List (List ℕ)). l ++ (value ∷ [])) empty in
    let flat : joined (queue s) ≡ value = ap joined one ∙ append-nil value in
    let fits = ap length flat in
    let (r', b', e', w'', empty', quiet', kept) =
      ring_to_memory-log s b w' (λ m. absurd (clash n m)) quiet (omega (arith, fits, room)) in
    let grown : log b' ≡ log b ++ value = kept ∙ ap (λ (l : List ℕ). log b ++ l) flat in
    let size = Yields-ok _ _ (r', b') (ring_to_memory-size s b) e' in
    (
      s,
      r',
      b',
      e,
      e',
      w'',
      empty',
      quiet',
      grown,
      size,
      sym (length-log b')
          ∙ ap length grown
          ∙ length-append (log b) value
          ∙ ap (λ (k : ℕ). k + length value) (length-log b),
    )
  where
    clash : {t : Bool} → t ≡ false → t ≡ true → ⊥
    clash e h = cc

produce-blinks :
    (n size count : ℕ) (r : RingBus (List ℕ)) (b : Blocker ℕ)
    → IsRing r
    → queue r ≡ []
    → IsQuiet b
    → b.bk_start + n * size ≤ b.size
    → (next : ℕ) × (r' : RingBus (List ℕ)) × (b' : Blocker ℕ) × (produce n size count r b
        ≡ ok (next, r', b'))
      × IsRing r'
      × (queue r' ≡ [])
      × IsQuiet b'
      × (log b' ≡ log b ++ blinks n size count)
unfolding produce blinks
produce-blinks zero size count r b w empty quiet room =
    (count, r, b, refl, w, empty, quiet, sym (append-nil (log b)))
produce-blinks (suc n) size count r b w empty quiet room =
    let value = (next_blink size count).0 in
    let long = length-next_blink size count in
    let (s, r', b', e, e', w', empty', quiet', grown, same, start) =
      round value r b w empty quiet (omega (arith, long, room)) in
    let (next, r'', b'', e'', w'', empty'', quiet'', all) =
      produce-blinks n size ((next_blink size count).1) r' b' w' empty' quiet'
        (omega (arith, long, room, same, start)) in
    (
      next,
      r'',
      b'',
      rw (e, e') e'',
      w'',
      empty'',
      quiet'',
      all
          ∙ ap (λ (l : List ℕ). l ++ blinks n size ((next_blink size count).1)) grown
          ∙ append_assoc (log b) value (blinks n size ((next_blink size count).1)),
    )

-- `n` blinks, of which the first starts with `a`, the next with `b`, and so on in turn.
unfoldable pub alternating : ℕ → ℕ → ℕ → ℕ → List ℕ
unfolding copies
alternating zero rest a b = []
alternating (suc n) rest a b = (a ∷ copies rest 0) ++ alternating n rest b a

blinks-alternating :
    (n rest : ℕ)
    → (blinks n (suc rest) 0 ≡ alternating n rest star underscore)
      × (blinks n (suc rest) 1 ≡ alternating n rest underscore star)
unfolding blinks next_blink alternating blink_samples
blinks-alternating zero rest = (refl, refl)
blinks-alternating (suc n) rest =
    let (even, odd) = blinks-alternating n rest in
    (
      ap (λ (l : List ℕ). (star ∷ copies rest 0) ++ l) odd,
      ap (λ (l : List ℕ). (underscore ∷ copies rest 0) ++ l) even,
    )

-- From a ring buffer that is empty and a host that starts counting: any number of rounds for whose
-- blinks the memory has room run without a report, leave the ring buffer empty and the memory
-- between two writes, and append to the log just as many blinks, in turn a star and an underscore
-- followed by zeros.
pub produce-alternating :
    (n rest : ℕ) (r : RingBus (List ℕ)) (b : Blocker ℕ)
    → IsRing r
    → queue r ≡ []
    → IsQuiet b
    → b.bk_start + n * suc rest ≤ b.size
    → (next : ℕ) × (r' : RingBus (List ℕ)) × (b' : Blocker ℕ) × (produce n (suc rest) 0 r b
        ≡ ok (next, r', b'))
      × IsRing r'
      × (queue r' ≡ [])
      × IsQuiet b'
      × (log b' ≡ log b ++ alternating n rest star underscore)
produce-alternating n rest r b w empty quiet room =
    let (next, r', b', e, w', empty', quiet', kept) =
      produce-blinks n (suc rest) 0 r b w empty quiet room in
    (
      next,
      r',
      b',
      e,
      w',
      empty',
      quiet',
      kept ∙ ap (λ (l : List ℕ). log b ++ l) ((blinks-alternating n rest).0),
    )
