-- ===== src/Prelude/Rounding.antt =====
-- Rounding to the nearest natural number, upwards from the middle.
use Prim.Native.Nat.{ℕ, zero, suc, ◌+◌, ◌*◌, ◌/◌, ◌^◌, ◌≤◌, ◌<◌}
use mathlib.Core.Path.{◌≡◌, ap, ◌∙◌}
use package.masjid_protocol.Prelude.Tests.{leb, Bool-cases}
use mathlib.Core.Logic.{inl, inr}
use native.Mathlib.Omega.{arith, div_any}
use native.Mathlib.Nat.{mod-lt, mul_assoc, mul_comm, mul-le-mul_right, suc-mul}

-- The natural number that is nearest to `n / m`.
abbrev pub nearest : (n m : ℕ) → ℕ
nearest n m = (2 * n + m) / (2 * m)

-- `q` times `m` is within half an `m` of `n`.
abbrev pub Near : (n m q : ℕ) → Type 0
Near n m q = (2 * (q * m) ≤ 2 * n + m) × (2 * n < 2 * (q * m) + m)

pub nearest-Near : (n m : ℕ) → 0 < m → Near n m (nearest n m)
nearest-Near n m h =
    let q = (2 * n + m) / (2 * m) in
    let d = div_any (2 * n + m) (2 * m) in
    let l = mod-lt (2 * n + m) {m = 2 * m} (omega arith) in
    let k : 2 * m * q ≡ 2 * (q * m) = mul_assoc 2 m q ∙ ap (λ x. 2 * x) (mul_comm m q) in
    (ground (arith, d, l, k), ground (arith, d, l, k))

pub ten-pow-pos : (n : ℕ) → 0 < 10 ^ n
ten-pow-pos zero = omega arith
ten-pow-pos (suc n) = let ih = ten-pow-pos n in omega arith

pub Near-le : (n m q k : ℕ) → 0 < m → Near n m q → n < k * m → q ≤ k
Near-le n m q k h near l = elim (Bool-cases (leb q k)) [
  | inl yes' ↦ ground (arith, yes')
  | inr no' ↦
      let g : suc k ≤ q = ground (arith, no') in
      let w : suc k * m ≤ q * m = mul-le-mul_right m g in
      absurd (omega (arith, w, near, l, h, suc-mul k m))
]

pub Near-ge : (n m q k : ℕ) → Near n m q → k * m ≤ n → k ≤ q
Near-ge n m q k near l = elim (Bool-cases (leb k q)) [
  | inl yes' ↦ ground (arith, yes')
  | inr no' ↦
      let g : suc q ≤ k = ground (arith, no') in
      let w : suc q * m ≤ k * m = mul-le-mul_right m g in
      let z : 0 < m = omega (arith, near, l, w, suc-mul q m) in
      absurd (omega (arith, z, w, near, l, suc-mul q m))
]
