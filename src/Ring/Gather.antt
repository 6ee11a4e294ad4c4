-- ===== src/Ring/Gather.antt =====
-- The cells between the two indices of a ring buffer.
use software_on_silicon.Base.{
  ℕ, zero, suc, ◌+◌, ◌-◌, ◌<◌, ◌≡◌, ◌≢◌, refl, ap, ◌∙◌, arith, ltb, if◌then◌else◌, Array, update,
  List, [], ◌∷◌, ◌++◌, length,
}
use software_on_silicon.Errors.{ok}
use software_on_silicon.Ring.{next_index, read_loop}

-- `n` cells from index `i` on, round the end.
unfoldable pub gather {ℓ} : {A : Type ℓ} → ℕ → ℕ → Array A → ℕ → List A
unfolding next_index
gather zero size cells i = []
gather (suc n) size cells i = cells i ∷ (gather n size cells (next_index size i))

-- `n` steps on from `i`.
abbrev pub onward : ℕ → ℕ → ℕ → ℕ
onward size i n = if ltb (i + n) size then i + n else i + n - size

pub next_index_lem :
    (size i n : ℕ)
    → i < size
    → suc n < size
    → onward size (next_index size i) n ≡ onward size i (suc n)
unfolding next_index
next_index_lem size i n lt small = ground arith

pub next_index-lt : (size i : ℕ) → i < size → next_index size i < size
unfolding next_index
next_index-lt size i lt = ground arith

pub gather_snoc {ℓ} :
    {A : Type ℓ} (n size i : ℕ) (cells : Array A) (v : A) (c : ℕ)
    → i < size
    → n < size
    → onward size i n ≡ c
    → gather (suc n) size (update cells c v) i ≡ gather n size cells i ++ (v ∷ [])
unfolding gather
gather_snoc zero size i cells v c lt small e = ground arith
gather_snoc (suc n) size i cells v c lt small e =
    let rest =
      gather_snoc n size (next_index size i) cells v c (next_index-lt size i lt) (omega arith)
        (next_index_lem size i n lt small ∙ e) in
    let other : i ≢ c = λ h. absurd (apart size i n c small lt e h) in
    rw rest (ground (arith, other))
  where
    apart : (size i n c : ℕ) → suc n < size → i < size → onward size i (suc n) ≡ c → i ≡ c → ⊥
    apart size i n c small lt e h = ground arith

pub read_loop_lem {ℓ} :
    {A : Type ℓ} (n fuel size current thread : ℕ) (cells : Array A)
    → n < fuel
    → n < size
    → thread < size
    → onward size (next_index size thread) n ≡ current
    → (t : ℕ) × (read_loop fuel size current cells thread
        ≡ ok (gather n size cells (next_index size thread), t))
      × (t < size)
      × (next_index size t ≡ current)
unfolding read_loop gather
read_loop_lem zero zero size current thread cells fuelled small lt e = absurd (omega arith)
read_loop_lem zero (suc fuel) size current thread cells fuelled small lt e =
    let inside = next_index-lt size thread lt in (thread, ground arith, lt, ground arith)
read_loop_lem (suc n) zero size current thread cells fuelled small lt e = absurd (omega arith)
read_loop_lem (suc n) (suc fuel) size current thread cells fuelled small lt e =
    let next = next_index size thread in
    let inside = next_index-lt size thread lt in
    let (t, run, fits, last) =
      read_loop_lem n fuel size current next cells (omega arith) (omega arith) inside
        (next_index_lem size next n inside small ∙ e) in
    let other : next ≢ current = λ h. absurd (apart size next n current small inside e h) in
    (t, rw run (ground (arith, other)), fits, last)
  where
    apart : (size i n c : ℕ) → suc n < size → i < size → onward size i (suc n) ≡ c → i ≡ c → ⊥
    apart size i n c small lt e h = ground arith

pub length-gather {ℓ} :
    {A : Type ℓ} (n size i : ℕ) (cells : Array A) → length (gather n size cells i) ≡ n
unfolding gather
length-gather zero size i cells = refl
length-gather (suc n) size i cells = ap suc (length-gather n size (next_index size i) cells)
