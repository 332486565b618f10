-- ===== src/Utils/Laws.antt =====
-- The address of what is pinned.
use masjid_protocol.Prelude.Text.{size, ◌+++◌}
use text.Mathlib.TextPositions.{starts_with-append}
use masjid_protocol.Prelude.{◌≡◌, refl, some, String}
use masjid_protocol.Prelude.Text.Laws.{slice_from-append, is_empty-append}
use masjid_protocol.Utils.{gateway, ipfs_to_http}

-- The name of a pinned document is read as its address at the gateway.
pub ipfs_to_http-pinned :
    (hash : String) → ipfs_to_http (some ("ipfs://" +++ hash)) ≡ some (gateway +++ hash)
unfolding ipfs_to_http size
ipfs_to_http-pinned hash =
    rw
      (
        is_empty-append "ipfs://" hash refl,
        starts_with-append "ipfs://" hash,
        slice_from-append "ipfs://" hash,
      )
      refl
