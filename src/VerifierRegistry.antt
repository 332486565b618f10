-- ===== src/VerifierRegistry.antt =====
-- smart-contract/src/protocol/VerifierRegistry.sol: who the verifiers are, and how many votes decide.
-- A call that reverts leaves the state as it was; events are left out.
pub mod Accounts
pub mod Laws
use text.Mathlib.Text.{◌==◌ as str_eq}
use masjid_protocol.Prelude.{
  ℕ, suc, ◌+◌, ◌-◌, ◌/◌, ◌^◌, Bool, true, false, not, List, [], ◌∷◌, String, Result, ok, thrown,
  leb, ◌==◌,
}
use masjid_protocol.Prelude.Reverts.{◌>>◌, revert_if, put}
use masjid_protocol.CashOut.Instance.{zero_address_text}

pub data Revert : Type 0 where
  not_authority zero_address already_verifier not_verifier panic : Revert

pub record State : Type 0 where
  pub authority : String
  pub verifier_count : ℕ
  pub is_verifier : String → Bool
  pub verifier_label : String → String

unfoldable pub constructor' : (authority : String) → Result Revert State
constructor' authority = do
  revert_if (str_eq authority zero_address_text) zero_address
  ok (record {
    authority = authority;
    verifier_count = 0;
    is_verifier = λ account. false;
    verifier_label = λ account. "";
  })

module _ (sender : String) (s : State) where
  -- The modifier `onlyAuthority`.
  abbrev only_authority : Result Revert (Unit {0})
  only_authority = revert_if (not (str_eq sender s.authority)) not_authority

  unfoldable pub transfer_authority : (new_authority : String) → Result Revert State
  transfer_authority new_authority = do
    only_authority
    revert_if (str_eq new_authority zero_address_text) zero_address
    ok (record s { authority = new_authority })

  -- The addition of 1 reverts where it overflows.
  unfoldable pub add_verifier : (verifier label : String) → Result Revert State
  add_verifier verifier label = do
    only_authority
    revert_if (str_eq verifier zero_address_text) zero_address
    revert_if (s.is_verifier verifier) already_verifier
    revert_if (leb (2 ^ 256) (suc s.verifier_count)) panic
    ok (record s {
      is_verifier = put verifier true s.is_verifier;
      verifier_label = put verifier label s.verifier_label;
      verifier_count = suc s.verifier_count;
    })

  -- The subtraction of 1 reverts at 0.
  unfoldable pub remove_verifier : (verifier : String) → Result Revert State
  remove_verifier verifier = do
    only_authority
    revert_if (not (s.is_verifier verifier)) not_verifier
    revert_if (s.verifier_count == 0) panic
    ok (record s {
      is_verifier = put verifier false s.is_verifier;
      verifier_label = put verifier "" s.verifier_label;
      verifier_count = s.verifier_count - 1;
    })

unfoldable pub quorum : State → ℕ
quorum s = s.verifier_count / 2 + 1

pub data Call : Type 0 where
  transferring : (new_authority : String) → Call
  adding : (verifier label : String) → Call
  removing : (verifier : String) → Call

unfoldable pub perform : (sender : String) → Call → State → Result Revert State
perform sender (transferring new_authority) s = transfer_authority sender s new_authority
perform sender (adding verifier label) s = add_verifier sender s verifier label
perform sender (removing verifier) s = remove_verifier sender s verifier

abbrev pub settle : Result Revert State → State → State
settle (ok s') s = s'
settle (thrown e) s = s

unfoldable pub perform_all : List (String × Call) → State → State
perform_all [] s = s
perform_all ((sender, call) ∷ calls) s = perform_all calls (settle (perform sender call s) s)
