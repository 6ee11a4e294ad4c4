-- ===== src/Counter.antt =====
-- impl/MCUFPGA/SymbolRateCounter.cpp: a counter of three bytes, the first of them signed.
use software_on_silicon.Base.{
  ℕ, ◌+◌, ◌-◌, ◌*◌, ◌%◌, ◌^◌, ◌<◌, ◌≡◌, refl, arith, Bool, true, ltb, if◌then◌else◌, ℤ, pos, negsuc,
  sub_ℕ,
}
use native.Mathlib.Decide.{dec_lt}
use software_on_silicon.Errors.{Outcome, ok, runtime_error}
use software_on_silicon.Errors.Code.{ErrorCode}

-- `SymbolRateCounter`. `red` is the byte that holds the signed value in two's complement.
pub record SymbolRateCounter : Type 0 where
  pub red : ℕ
  pub green : ℕ
  pub blue : ℕ

unfoldable pub new_symbol_rate_counter : SymbolRateCounter
new_symbol_rate_counter = record { red = 0; green = 0; blue = 0 }

-- The value of a `signed char`, and whether it is below 128.
unfoldable pub signed_char : ℕ → ℤ
signed_char byte = if ltb byte 128 then pos byte else sub_ℕ byte 256

unfoldable pub below_128 : ℤ → Bool
below_128 (pos n) = ltb n 128
below_128 (negsuc n) = true

-- `operator++`. The signed byte wraps, as two's complement does.
unfoldable pub increment : SymbolRateCounter → Outcome SymbolRateCounter
unfolding signed_char below_128
increment c =
    if ltb c.blue 255
    then ok (record c { blue = c.blue + 1 })
    else if ltb c.green 255
    then ok (record c { blue = 0; green = c.green + 1 })
    else if below_128 (signed_char c.red)
    then ok (record c { blue = 0; green = 0; red = (c.red + 1) % 256 })
    else runtime_error ErrorCode.nan

-- `to_int32`: `red * 255 * 255 + green * 255 + blue`, with the sign of `red`.
unfoldable pub to_int32 : SymbolRateCounter → ℤ
to_int32 c =
    let rest = c.green * 255 + c.blue in
    if ltb c.red 128 then pos (c.red * 255 * 255 + rest) else sub_ℕ rest ((256 - c.red) * 255 * 255)

pub record IsBytes (c : SymbolRateCounter) : Type 0 where
  pub red : c.red < 256
  pub green : c.green < 256
  pub blue : c.blue < 256

-- The three bytes as one number.
abbrev pub total : SymbolRateCounter → ℕ
total c = c.red * 65536 + c.green * 256 + c.blue

signed_high : (n : ℕ) → n < 256 → ¬ (n < 128) → signed_char n ≡ negsuc (256 - n - 1)
unfolding signed_char
signed_high n h high = ground arith

signed_low : (n : ℕ) → n < 128 → signed_char n ≡ pos n
unfolding signed_char
signed_low n low = ground arith

-- A signed byte is below 128.
below : (n : ℕ) → n < 256 → below_128 (signed_char n) ≡ true
unfolding below_128
below n h = elim (dec_lt n 128) [
  | yes low ↦ rw (signed_low n low) (ground (arith, low))
  | no high ↦ rw (signed_high n h high) refl
]

count_blue :
    (c : SymbolRateCounter) → c.blue < 255 → increment c ≡ ok (record c { blue = c.blue + 1 })
unfolding increment
count_blue c low = ground (arith, low)

count_green :
    (c : SymbolRateCounter)
    → c.blue ≡ 255
    → c.green < 255
    → increment c ≡ ok (record c { blue = 0; green = c.green + 1 })
unfolding increment
count_green c full low = ground (arith, full, low)

count_red :
    (c : SymbolRateCounter)
    → IsBytes c
    → c.blue ≡ 255
    → c.green ≡ 255
    → increment c ≡ ok (record { blue = 0; green = 0; red = (c.red + 1) % 256 })
unfolding increment
count_red c h full full_green = ground (arith, full, full_green, below c.red h.red)

-- Counting never fails: it adds one to the number of the three bytes, and goes from the largest back
-- to zero, since a signed byte is always below 128. The printed number does not follow. Where the
-- first byte is below 128 it grows by one while the last byte does not overflow, and stays as it is
-- when the last byte overflows and the second does not. When both overflow and the first byte is
-- below 127, it falls by 255.
pub increment_lem :
    (c : SymbolRateCounter)
    → IsBytes c
    → (d : SymbolRateCounter) × (increment c ≡ ok d)
      × IsBytes d
      × (total d ≡ (total c + 1) % 2 ^ 24)
      × (c.red < 128 → c.blue < 255 → to_int32 d ≡ pos (c.red * 65025 + c.green * 255 + c.blue + 1))
      × (c.red < 128 → c.blue ≡ 255 → c.green < 255 → to_int32 d ≡ to_int32 c)
      × (c.red < 127
          → c.blue ≡ 255
          → c.green ≡ 255
          → (to_int32 c ≡ pos (c.red * 65025 + 65280)) × (to_int32 d ≡ pos (c.red * 65025 + 65025)))
unfolding increment to_int32
increment_lem c h = elim (dec_lt c.blue 255) [
  | yes low ↦ (
    record c { blue = c.blue + 1 },
    count_blue c low,
    record { red = h.red; green = h.green; blue = omega arith },
    omega (arith, h.red, h.green),
    λ positive less. ground (arith, positive),
    λ positive full less. absurd (omega arith),
    λ positive full full_green. absurd (omega arith),
  )
  | no high ↦
      let full : c.blue ≡ 255 = omega (arith, h.blue) in
      elim (dec_lt c.green 255) [
        | yes low ↦ (
          record c { blue = 0; green = c.green + 1 },
          count_green c full low,
          record { red = h.red; green = omega arith; blue = omega arith },
          omega (arith, h.red),
          λ positive less. absurd (omega arith),
          λ positive full less. ground (arith, positive),
          λ positive full full_green. absurd (omega arith),
        )
        | no high_green ↦
            let full_green : c.green ≡ 255 = omega (arith, h.green) in
            (
              record { blue = 0; green = 0; red = (c.red + 1) % 256 },
              count_red c h full full_green,
              record { red = omega arith; green = omega arith; blue = omega arith },
              omega (arith, h.red),
              λ positive less. absurd (omega arith),
              λ positive full less. absurd (omega arith),
              λ positive full also. (
                ground (arith, positive, full, also),
                let low : (c.red + 1) % 256 ≡ c.red + 1 = omega (arith, positive) in
                    rw low (ground (arith, positive)),
              ),
            )
      ]
]
