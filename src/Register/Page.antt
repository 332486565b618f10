-- ===== src/Register/Page.antt =====
-- The page of registration, `RegisterMasjidUI` of front-end/src/app/board/register/ui.tsx, as a state
-- machine: a submission uploads first and then hands the transaction to `useRegisterMasjid`. The
-- state of that mutation, and whether a wallet is connected, are react-query's and wagmi's.
pub mod Laws
use masjid_protocol.Prelude.{
  Bool, true, false, not, ◌&&◌, ◌||◌, List, [], ◌∷◌, ◌++◌, Option, none, some, String, Result, ok,
  thrown, if◌then◌else◌,
}
use masjid_protocol.Contracts.Calls.{RegisterMasjidArgs}

-- The state of `useRegisterMasjid`.
pub record Mutation : Type 0 where
  pub is_pending : Bool
  pub is_confirming : Bool
  pub is_confirmed : Bool
  pub error : Option String
  pub data_ : Option String

-- The state of the component; `mutated` are the registrations that were handed to the mutation.
pub record State (File : Type 0) : Type 0 where
  pub foto : Option File
  pub uploading : Bool
  pub upload_error : Option String
  pub mutated : List RegisterMasjidArgs

-- A choice of a picture, a submission whose fields have no errors, and the end of its uploads:
-- what `on_submit` gives.
pub data Event (File : Type 0) : Type 0 where
  choose_foto : Option File → Event File
  submit : Event File
  uploaded : Result String RegisterMasjidArgs → Event File

module _ {File : Type 0} where
  abbrev pub start : State File
  start = record { foto = none; uploading = false; upload_error = none; mutated = [] }

  abbrev pub is_busy : State File → Mutation → Bool
  is_busy s m = s.uploading || m.is_pending || m.is_confirming

  unfoldable pub handle : Event File → State File → State File
  handle (choose_foto file) s = record s { foto = file }
  handle submit s = record s { upload_error = none; uploading = true }
  handle (uploaded (thrown message)) s = record s { upload_error = some message; uploading = false }
  handle (uploaded (ok args)) s = record s { uploading = false; mutated = s.mutated ++ args ∷ [] }

  -- What can happen: fields and buttons that are disabled do nothing, and uploads end once.
  abbrev pub can_happen : (is_connected : Bool) → Mutation → Event File → State File → Bool
  can_happen is_connected m (choose_foto file) s = not (is_busy s m)
  can_happen is_connected m submit s = is_connected && not (is_busy s m) && not m.is_confirmed
  can_happen is_connected m (uploaded result) s = s.uploading

pub data Label : Type 0 where
  upload_ke_ipfs konfirmasi_di_wallet menunggu_konfirmasi : Label
  berhasil_didaftarkan ajukan_pendaftaran : Label

pub record SubmitButton : Type 0 where
  pub disabled : Bool
  pub label : Label

-- The notice of success with the transaction, the two messages, and the button of the form, which
-- is there for a wallet that is connected.
pub record View : Type 0 where
  pub notice : Option (Option String)
  pub fields_disabled : Bool
  pub upload_error : Option String
  pub transaction_error : Option String
  pub button : Option SubmitButton

abbrev label_of : (uploading busy : Bool) → Mutation → Label
label_of uploading busy m =
    if busy
    then (if uploading
        then upload_ke_ipfs
        else if m.is_pending
        then konfirmasi_di_wallet
        else menunggu_konfirmasi)
    else if m.is_confirmed
    then berhasil_didaftarkan
    else ajukan_pendaftaran

unfoldable pub view : {File : Type 0} → (is_connected : Bool) → Mutation → State File → View
view is_connected m s =
    let busy = is_busy s m in
    record {
      notice = if m.is_confirmed then some m.data_ else none;
      fields_disabled = busy;
      upload_error = s.upload_error;
      transaction_error = m.error;
      button =
          if is_connected
          then some
              (record { disabled = busy || m.is_confirmed; label = label_of s.uploading busy m })
          else none;
    }
