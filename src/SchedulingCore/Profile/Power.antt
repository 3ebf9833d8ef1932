-- ===== src/SchedulingCore/Profile/Power.antt =====
-- The batch size that a profile is asked for (`_next_power_of_2`, scheduling_core.py).
use native.Mathlib.Nat.{pow-suc}
use diflow.Prelude.{
  ℕ, zero, suc, ◌-◌, ◌*◌, ◌/◌, ◌^◌, ◌≤◌, ◌<◌, ◌≡◌, refl, ◌⊎◌, inl, inr, Bool-cases, arith, leb,
  nat_beq, ok, raise, value_error,
}
use diflow.SchedulingCore.Profile.{bit_length_from, bit_length, next_power_of_2}

bit_length_from_zero : (fuel : ℕ) → bit_length_from fuel 0 ≡ 0
unfolding bit_length_from
bit_length_from_zero zero = refl
bit_length_from_zero (suc fuel) = refl

bit_length_from_bounds :
    (fuel n : ℕ)
    → n ≤ fuel
    → (n < 2 ^ bit_length_from fuel n) × (0 < n → 2 ^ bit_length_from fuel n ≤ 2 * n)
unfolding bit_length_from
bit_length_from_bounds zero n h = (omega arith, λ p. omega arith)
bit_length_from_bounds (suc fuel) n h =
    let (upper, lower) = bit_length_from_bounds fuel (n / 2) (omega arith) in
    let double = pow-suc 2 (bit_length_from fuel (n / 2)) in
    elim (Bool-cases (nat_beq n 0)) [
      | inl none_left ↦ rw none_left (ground arith, λ p. ground arith)
      | inr some_left ↦ rw some_left (
        omega arith,
        λ p. elim (Bool-cases (nat_beq (n / 2) 0)) [
          | inl last ↦
              let halved : n / 2 ≡ 0 = ground arith in
              rw (halved, bit_length_from_zero fuel) (omega arith)
          | inr more ↦ omega (arith, lower (ground arith))
        ],
      )
    ]

-- The batch size looked up is the least power of two that is not below the batch: it is a power of
-- two, at least `value` and below `2 * value`. An empty batch is a ValueError.
pub next_power_of_2_bounds :
    (value : ℕ)
    → (value ≡ 0) × (next_power_of_2 value ≡ raise value_error)
      ⊎ (k : ℕ) × (next_power_of_2 value ≡ ok (2 ^ k)) × (value ≤ 2 ^ k) × (2 ^ k < 2 * value)
unfolding next_power_of_2 bit_length
next_power_of_2_bounds value = elim (Bool-cases (leb 1 value)) [
  | inl batch ↦
      let (upper, lower) = bit_length_from_bounds (value - 1) (value - 1) (omega arith) in
      let below : 2 ^ bit_length_from (value - 1) (value - 1) < 2 * value =
        elim (Bool-cases (nat_beq (value - 1) 0)) [
          | inl single ↦ let rest : value - 1 ≡ 0 = ground arith in rw rest (ground arith)
          | inr several ↦ omega (arith, lower (ground arith))
        ] in
      inr
        (bit_length_from (value - 1) (value - 1), rw (batch, next_power_of_2), ground arith, below)
  | inr empty ↦ inl (ground arith, rw (empty, next_power_of_2))
]
