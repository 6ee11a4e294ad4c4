-- ===== src/Wire/Bits.antt =====
-- `^` on bit strings, at every width: digit by digit, and as addition where they do not overlap.
use Prim.Native.Nat.{digits, differ, bit_xor-bitwise}
use native.Mathlib.Nat.{pow-suc, le_refl}
use mathlib.Core.WellFounded
use software_on_silicon.Base.{
  ℕ, zero, suc, ◌+◌, ◌*◌, ◌/◌, ◌%◌, ◌^◌, ◌≤◌, ◌<◌, bit_xor, ◌≡◌, refl, ap, arith, lt_wf,
}

same_digits :
    (n m a b : ℕ) → a ≤ n → a ≤ m → digits (λ b. b) differ n a b ≡ digits (λ b. b) differ m a b
same_digits zero zero a b p q = refl
same_digits zero (suc m) zero b p q = refl
same_digits zero (suc m) (suc a) b p q = absurd (omega arith)
same_digits (suc n) zero zero b p q = refl
same_digits (suc n) zero (suc a) b p q = absurd (omega arith)
same_digits (suc n) (suc m) zero b p q = refl
same_digits (suc n) (suc m) (suc a) b p q =
    rw (same_digits n m (suc a / 2) (b / 2) (omega arith) (omega arith))

-- The law of the lowest digit.
bit_xor_step : (a b : ℕ) → bit_xor a b ≡ bit_xor (a / 2) (b / 2) * 2 + differ (a % 2) (b % 2)
bit_xor_step zero b = simp bit_xor-bitwise (omega arith)
bit_xor_step (suc a) b =
    simp bit_xor-bitwise
      (omega (arith, same_digits a (suc a / 2) (suc a / 2) (b / 2) (omega arith) (le_refl _)))

zero-bit_xor : (b : ℕ) → bit_xor 0 b ≡ b
zero-bit_xor b = bit_xor-bitwise 0 b

differ-zero : (r : ℕ) → r < 2 → differ r 0 ≡ r
differ-zero zero h = refl
differ-zero (suc zero) h = refl
differ-zero (suc (suc r)) h = absurd (omega arith)

bit_xor-zero : (a : ℕ) → bit_xor a 0 ≡ a
bit_xor-zero a = WellFounded.induction lt_wf a step
  where
    step : (n : ℕ) → ((m : ℕ) → m < n → bit_xor m 0 ≡ m) → bit_xor n 0 ≡ n
    step zero ih = refl
    step (suc n) ih = omega (
      arith,
      bit_xor_step (suc n) 0,
      differ-zero (suc n % 2) (omega arith),
      ih (suc n / 2) (omega arith),
    )

shifted : (k field : ℕ) → 2 * (field * 2 ^ k) ≡ field * 2 ^ suc k
shifted k field =
    let widened = ap (λ (power : ℕ). field * power) (pow-suc 2 k) in omega (arith, widened)

-- The high and the low fields of two strings are combined apart.
bit_xor_fields :
    (k a b x y : ℕ)
    → x < 2 ^ k
    → y < 2 ^ k
    → bit_xor (a * 2 ^ k + x) (b * 2 ^ k + y) ≡ bit_xor a b * 2 ^ k + bit_xor x y
bit_xor_fields zero a b x y hx hy =
    let ex : x ≡ 0 = omega arith in
    let ey : y ≡ 0 = omega arith in
    let ea : a * 2 ^ 0 + x ≡ a = omega arith in
    let eb : b * 2 ^ 0 + y ≡ b = omega arith in
    rw (ea, eb) (rw (ex, ey) (omega (arith, zero-bit_xor 0)))
bit_xor_fields (suc k) a b x y hx hy =
    let da : (a * 2 ^ suc k + x) / 2 ≡ a * 2 ^ k + x / 2 = omega (arith, shifted k a) in
    let db : (b * 2 ^ suc k + y) / 2 ≡ b * 2 ^ k + y / 2 = omega (arith, shifted k b) in
    let ma : (a * 2 ^ suc k + x) % 2 ≡ x % 2 = omega (arith, shifted k a) in
    let mb : (b * 2 ^ suc k + y) % 2 ≡ y % 2 = omega (arith, shifted k b) in
    let half =
      bit_xor_fields k a b (x / 2) (y / 2) (omega (arith, pow-suc 2 k))
        (omega (arith, pow-suc 2 k)) in
    rw (bit_xor_step (a * 2 ^ suc k + x) (b * 2 ^ suc k + y))
      (rw (da, db, ma, mb, half) (omega (arith, bit_xor_step x y, shifted k (bit_xor a b))))

-- A low field laid over a string whose low bits are zero is a sum.
pub bit_xor_low : (k a y : ℕ) → y < 2 ^ k → bit_xor (a * 2 ^ k) y ≡ a * 2 ^ k + y
bit_xor_low k a y h =
    let fields = bit_xor_fields k a 0 0 y (omega arith) h in
    let e : a * 2 ^ k + 0 ≡ a * 2 ^ k = omega arith in
    let e' : 0 * 2 ^ k + y ≡ y = omega arith in
    (rw (e, e', bit_xor-zero a, zero-bit_xor y) at fields)

-- A middle field of `m` bits laid over a string that has `k` low bits and is zero in that field.
pub bit_xor_middle :
    (k m a b x : ℕ)
    → x < 2 ^ k
    → b < 2 ^ m
    → bit_xor (a * 2 ^ m * 2 ^ k + x) (b * 2 ^ k) ≡ (a * 2 ^ m + b) * 2 ^ k + x
bit_xor_middle k m a b x hx hb =
    let fields = bit_xor_fields k (a * 2 ^ m) b x 0 hx (omega arith) in
    let e : b * 2 ^ k + 0 ≡ b * 2 ^ k = omega arith in
    rw (← e) (rw fields (rw (bit_xor_low m a b hb, bit_xor-zero x)))

differ-lt : (r t : ℕ) → r < 2 → t < 2 → differ r t < 2
differ-lt zero t hr ht = omega arith
differ-lt (suc zero) zero hr ht = omega arith
differ-lt (suc zero) (suc zero) hr ht = omega arith
differ-lt (suc zero) (suc (suc t)) hr ht = absurd (omega arith)
differ-lt (suc (suc r)) t hr ht = absurd (omega arith)

-- Two strings of `k` bits give a string of `k` bits.
pub bit_xor-lt : (k a b : ℕ) → a < 2 ^ k → b < 2 ^ k → bit_xor a b < 2 ^ k
bit_xor-lt zero a b ha hb =
    let ea : a ≡ 0 = omega arith in let eb : b ≡ 0 = omega arith in rw (ea, eb) (omega arith)
bit_xor-lt (suc k) a b ha hb =
    let half =
      bit_xor-lt k (a / 2) (b / 2) (omega (arith, pow-suc 2 k)) (omega (arith, pow-suc 2 k)) in
    omega (
      arith,
      half,
      pow-suc 2 k,
      bit_xor_step a b,
      differ-lt (a % 2) (b % 2) (omega arith) (omega arith),
    )
