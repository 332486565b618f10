-- ===== src/Idrx/Laws.antt =====
-- How far a compact amount is from the amount.
use masjid_protocol.Prelude.{ℕ, leb, Bool-cases, inl, inr, ◌*◌, ◌^◌, ◌≤◌, ◌<◌, arith}
use masjid_protocol.Prelude.Rounding.{Near, ten-pow-pos, nearest-Near, Near-le}
use masjid_protocol.Idrx.{Compact, miliar, juta, ribu, full, compact}

-- The unit is the one that the amount reaches, but not the next, and the number shown of it is
-- within half a step.
abbrev pub IsShown : (raw unit : ℕ) → Compact → Type 0
IsShown raw unit (miliar t) = (1000000000 * unit ≤ raw) × Near (10 * raw) (1000000000 * unit) t
IsShown raw unit (juta t) =
    (1000000 * unit ≤ raw)
    × (raw < 1000000000 * unit)
    × Near (10 * raw) (1000000 * unit) t
    × (t ≤ 10000)
IsShown raw unit (ribu t) =
    (1000 * unit ≤ raw) × (raw < 1000000 * unit) × Near raw (1000 * unit) t × (t ≤ 1000)
IsShown raw unit full = raw < 1000 * unit

-- A compact amount is written with the largest of the units (a milliard, a million, a thousand)
-- that it reaches, or whole below a thousand, and the number written is the nearest step (a tenth
-- of a milliard or of a million, a thousand), so it is off by half a step at most.
pub compact-IsShown : (raw decimals : ℕ) → IsShown raw (10 ^ decimals) (compact raw decimals)
unfolding compact
compact-IsShown raw decimals =
    let u = 10 ^ decimals in
    let h = ten-pow-pos decimals in
    elim (Bool-cases (leb (1000000000 * 10 ^ decimals) raw)) [
      | inl a ↦
          rw a (ground (arith, a), nearest-Near (10 * raw) (1000000000 * u) (omega (arith, h)))
      | inr a ↦ elim (Bool-cases (leb (1000000 * 10 ^ decimals) raw)) [
        | inl b ↦
            let n = nearest-Near (10 * raw) (1000000 * u) (omega (arith, h)) in
            rw (a, b)
              (
                ground (arith, b),
                ground (arith, a),
                n,
                Near-le (10 * raw) (1000000 * u) _ 10000 (omega (arith, h)) n (ground (arith, a)),
              )
        | inr b ↦ elim (Bool-cases (leb (1000 * 10 ^ decimals) raw)) [
          | inl c ↦
              let n = nearest-Near raw (1000 * u) (omega (arith, h)) in
              rw (a, b, c)
                (
                  ground (arith, c),
                  ground (arith, b),
                  n,
                  Near-le raw (1000 * u) _ 1000 (omega (arith, h)) n (ground (arith, b)),
                )
          | inr c ↦ rw (a, b, c) (ground (arith, c))
        ]
      ]
    ]
