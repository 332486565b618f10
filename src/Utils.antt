-- ===== src/Utils.antt =====
-- The helpers of front-end/src/lib/utils.ts that the pages share, apart from `parseDonateAmount`,
-- which stands with the donation form. `parseFloat` and the text of a number in the Indonesian
-- locale are parameters.
pub mod Laws
use text.Mathlib.Text.{starts_with}
use masjid_protocol.Prelude.{ℕ, Option, none, some, String, if◌then◌else◌}
use masjid_protocol.Prelude.Text.{◌+++◌, slice_to, slice_from, slice_last, is_empty}

unfoldable pub shorten_addr : String → String
unfolding slice_to slice_last
shorten_addr addr = slice_to 6 addr +++ "…" +++ slice_last 4 addr

-- The gateway that serves what is pinned.
abbrev pub gateway : String
gateway = "https://apricot-traditional-bison-98.mypinata.cloud/ipfs/"

unfoldable pub ipfs_to_http : Option String → Option String
unfolding slice_from
ipfs_to_http none = none
ipfs_to_http (some uri) =
    if is_empty uri
    then none
    else if starts_with uri "ipfs://"
    then some (gateway +++ slice_from 7 uri)
    else some uri

-- `parse_float` is `none` where the result is NaN; `localized n decimals` is the text of
-- `n / 10 ** decimals`.
module _ {N : Type 0} (parse_float : String → Option N) (localized : N → ℕ → String) where
  unfoldable pub format_amount : Option String → ℕ → String
  format_amount none decimals = "—"
  format_amount (some raw) decimals =
      if is_empty raw
      then "—"
      else elim (parse_float raw) [ none ↦ "—" | some n ↦ localized n decimals +++ " IDRX" ]
