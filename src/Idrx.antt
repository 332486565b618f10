-- ===== src/Idrx.antt =====
-- Amounts of the stablecoin as texts: front-end/src/lib/idrx.ts. The exact quotient stands for the
-- floating-point one; `toFixed` rounds to the nearest multiple, upwards from the middle. The text
-- of a number and `Intl.NumberFormat` are parameters.
pub mod Laws
use masjid_protocol.Prelude.{ℕ, ◌+◌, ◌*◌, ◌/◌, ◌%◌, ◌^◌, String, leb, if◌then◌else◌}
use masjid_protocol.Prelude.Rounding.{nearest}
use masjid_protocol.Prelude.Text.{◌+++◌}

-- What `formatIDRXCompact` shows: tenths of a milliard or of a million, thousands, or the whole.
pub data Compact : Type 0 where
  miliar juta : (tenths : ℕ) → Compact
  ribu : (thousands : ℕ) → Compact
  full : Compact

-- The amount is `raw / 10 ^ decimals`; each test is multiplied by `10 ^ decimals`.
unfoldable pub compact : (raw decimals : ℕ) → Compact
compact raw decimals =
    let unit = 10 ^ decimals in
    if leb (1000000000 * unit) raw
    then miliar (nearest (10 * raw) (1000000000 * unit))
    else if leb (1000000 * unit) raw
    then juta (nearest (10 * raw) (1000000 * unit))
    else if leb (1000 * unit) raw
    then ribu (nearest raw (1000 * unit))
    else full

abbrev pub idrx_decimals : ℕ
idrx_decimals = 2

module _ (to_text : ℕ → String) (currency : (raw decimals : ℕ) → String) where
  abbrev pub format_idrx : (raw decimals : ℕ) → String
  format_idrx raw decimals = currency raw decimals

  abbrev one_decimal : ℕ → String
  one_decimal tenths = to_text (tenths / 10) +++ "." +++ to_text (tenths % 10)

  abbrev written : Compact → (raw decimals : ℕ) → String
  written (miliar tenths) raw decimals = "Rp " +++ one_decimal tenths +++ " M"
  written (juta tenths) raw decimals = "Rp " +++ one_decimal tenths +++ " jt"
  written (ribu thousands) raw decimals = "Rp " +++ to_text thousands +++ " rb"
  written full raw decimals = format_idrx raw decimals

  unfoldable pub format_idrx_compact : (raw decimals : ℕ) → String
  unfolding compact
  format_idrx_compact raw decimals = written (compact raw decimals) raw decimals
