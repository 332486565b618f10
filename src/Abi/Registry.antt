-- ===== src/Abi/Registry.antt =====
-- VERIFIER_REGISTRY_ABI of front-end/src/lib/contracts.ts, entry by entry.
use masjid_protocol.Prelude.{List, [], ◌∷◌, ◌++◌}
use masjid_protocol.Abi.{
  Entry, function, event, error, nil, param, address, uint256, bool, string, view, nonpayable,
}

abbrev pub verifier_registry_functions : List Entry
verifier_registry_functions =
    (function "authority" nil (param "" address nil) view)
    ∷ (function "quorum" nil (param "" uint256 nil) view)
    ∷ (function "verifierCount" nil (param "" uint256 nil) view)
    ∷ (function "isVerifier" (param "account" address nil) (param "" bool nil) view)
    ∷ (function "verifierLabel" (param "account" address nil) (param "" string nil) view)
    ∷ (function "verifierInfo" (param "account" address nil)
        (param "active" bool (param "label" string nil)) view)
    ∷ (function "addVerifier" (param "verifier" address (param "label" string nil)) nil nonpayable)
    ∷ (function "removeVerifier" (param "verifier" address nil) nil nonpayable)
    ∷ (function "transferAuthority" (param "newAuthority" address nil) nil nonpayable)
    ∷ []

abbrev pub verifier_registry_events : List Entry
verifier_registry_events =
    (event "VerifierAdded" (param "verifier" address nil) (param "label" string nil))
    ∷ (event "VerifierRemoved" (param "verifier" address nil) nil)
    ∷ (event "AuthorityTransferred"
        (param "previousAuthority" address (param "newAuthority" address nil)) nil)
    ∷ []

abbrev pub verifier_registry_errors : List Entry
verifier_registry_errors =
    (error "NotAuthority")
    ∷ (error "ZeroAddress")
    ∷ (error "AlreadyVerifier")
    ∷ (error "NotVerifier")
    ∷ []

abbrev pub verifier_registry_abi : List Entry
verifier_registry_abi =
    verifier_registry_functions ++ verifier_registry_events ++ verifier_registry_errors
