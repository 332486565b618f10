-- ===== src/ContractErrors.antt =====
-- front-end/src/lib/contractErrors.ts: from what a contract call throws to the message shown.
-- The message table is an association list: the properties that a JavaScript object inherits
-- ("constructor" and the like) are no Solidity error names of the four contracts.
pub mod Laws
use text.Mathlib.Text.{◌==◌ as str_eq}
use masjid_protocol.Prelude.Text.{includes, is_empty, ◌+++◌}
use masjid_protocol.Prelude.{
  Bool, ◌||◌, List, [], ◌∷◌, Option, none, some, String, or_else, if◌then◌else◌,
}

-- What viem attaches to a `ContractFunctionRevertedError`.
pub record Revert : Type 0 where
  pub error_name : Option String
  pub reason : Option String

-- What a `catch` receives: a viem `BaseError` with the revert that `walk` finds in its causes,
-- another `Error`, or any other value.
pub data Failure : Type 0 where
  base_error : (message : String) → (short_message : Option String) → Option Revert → Failure
  js_error : (message : String) → Failure
  other : Failure

pub error_messages : List (String × String)
error_messages =
    ("NotOwner", "Hanya pemilik kontrak yang dapat melakukan aksi ini.")
    ∷ ("NotMasjidAdmin", "Anda bukan admin masjid ini.")
    ∷ ("NotAuthorizedVerifier", "Anda bukan verifikator resmi.")
    ∷ ("InvalidThreshold", "Threshold tidak valid.")
    ∷ ("ZeroAddress", "Alamat tidak boleh kosong (zero address).")
    ∷ ("EmptyName", "Nama tidak boleh kosong.")
    ∷ ("InvalidStatus", "Status masjid tidak memenuhi syarat untuk aksi ini.")
    ∷ ("AlreadyAttested", "Masjid ini sudah pernah diattestasi oleh Anda.")
    ∷ ("AlreadyRegisteredName", "Nama masjid sudah terdaftar.")
    ∷ ("MasjidNotFound", "Masjid tidak ditemukan.")
    ∷ ("OnlyProtocol", "Hanya protokol yang dapat memanggil fungsi ini.")
    ∷ ("AmountZero", "Jumlah harus lebih dari nol.")
    ∷ ("TransferFailed", "Transfer token gagal. Periksa saldo dan allowance.")
    ∷ ("DuplicateVerifier", "Alamat anggota dewan duplikat.")
    ∷ ("InvalidExpiry", "Batas waktu tidak valid (minimal 1 hari).")
    ∷ ("CashOutNotFound", "Permintaan pencairan tidak ditemukan.")
    ∷ ("CashOutExpired", "Permintaan pencairan sudah expired.")
    ∷ ("CashOutAlreadyApproved", "Anda sudah menyetujui permintaan ini.")
    ∷ ("CashOutAlreadyExecuted", "Permintaan pencairan sudah dieksekusi.")
    ∷ ("CashOutIsCanceled", "Permintaan pencairan sudah dibatalkan.")
    ∷ ("CashOutThresholdNotReached", "Belum cukup persetujuan untuk mengeksekusi pencairan.")
    ∷ ("NotAuthority", "Hanya authority yang dapat melakukan aksi ini.")
    ∷ ("AlreadyVerifier", "Alamat ini sudah terdaftar sebagai verifikator.")
    ∷ ("NotVerifier", "Alamat ini bukan verifikator.")
    ∷ ("InvalidQuorum", "Quorum tidak valid.")
    ∷ ("QuorumExceedsVerifierCount", "Quorum melebihi jumlah verifikator.")
    ∷ []

abbrev pub lookup : String → List (String × String) → Option String
lookup key [] = none
lookup key ((k, v) ∷ rest) = if str_eq k key then some v else lookup key rest

abbrev pub first_some : Option String → Option String → Option String
first_some (some a) b = some a
first_some none b = b

-- `ERROR_MESSAGES[name]`.
unfoldable pub message_of : String → Option String
unfolding error_messages
message_of name = lookup name error_messages

-- The message for a revert, if its name is not empty.
unfoldable pub revert_message : Revert → Option String
unfolding message_of
revert_message r =
    let name = or_else (first_some r.error_name r.reason) "" in
    if is_empty name
    then none
    else some (or_else (message_of name) ("Kontrak menolak transaksi: " +++ name))

abbrev is_rejection : String → Bool
is_rejection message = includes "User rejected" message || includes "user rejected" message

abbrev revert_of : Option Revert → Option String
revert_of none = none
revert_of (some r) = revert_message r

unfoldable pub map_contract_error : Failure → String
unfolding revert_message includes
map_contract_error (base_error message short revert) =
    if is_rejection message
    then "Transaksi dibatalkan di wallet."
    else or_else (revert_of revert) (or_else short message)
map_contract_error (js_error message) = message
map_contract_error other = "Terjadi kesalahan yang tidak diketahui."
