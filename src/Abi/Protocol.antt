-- ===== src/Abi/Protocol.antt =====
-- MASJID_PROTOCOL_ABI of front-end/src/lib/contracts.ts, entry by entry. An `address[]` is `addresses`.
use masjid_protocol.Prelude.{List, [], ◌∷◌, ◌++◌}
use masjid_protocol.Abi.{
  Entry, constructor_entry, function, event, error, nil, param, address, uint256, uint64, uint32,
  uint8, bytes32, bool, string, addresses, tuple, view, nonpayable,
}

abbrev pub masjid_protocol_functions : List Entry
masjid_protocol_functions =
    (constructor_entry (param "verifierRegistry_" address nil) nonpayable)
    ∷ (function "FACTORY" nil (param "" address nil) view)
    ∷ (function "VERIFIER_REGISTRY" nil (param "" address nil) view)
    ∷ (function "admin" nil (param "" address nil) view)
    ∷ (function "masjidNonce" nil (param "" uint256 nil) view)
    ∷ (function "get" (param "masjidId" bytes32 nil)
        (param ""
          (tuple (
            param "proposer" address (
              param "masjidAdmin" address (
                param "instance" address (
                  param "stablecoin" address (
                    param "nameHash" bytes32 (
                      param "cashOutThreshold" uint256 (
                        param "attestYes" uint32 (
                          param "attestNo" uint32 (
                            param "status" uint8 (
                              param "createdAt" uint64 (
                                param "updatedAt" uint64 (
                                  param "masjidName" string
                                    (param "metadataUri" string nil))))))))))))))
          nil)
        view)
    ∷ (function "getBoardMembers" (param "masjidId" bytes32 nil) (param "" addresses nil) view)
    ∷ (function "getAttesters" (param "masjidId" bytes32 nil) (param "" addresses nil) view)
    ∷ (function "hasAttested" (param "" bytes32 (param "" address nil)) (param "" bool nil) view)
    ∷ (function "masjidIdByNameHash" (param "" bytes32 nil) (param "" bytes32 nil) view)
    ∷ (function "register"
        (param "masjidName" string (
          param "metadataUri" string
            (param "stablecoin" address (param "boardMembers" addresses nil))))
        (param "masjidId" bytes32 nil) nonpayable)
    ∷ (function "attest" (param "masjidId" bytes32 (param "support" bool nil)) nil nonpayable)
    ∷ (function "transferAdmin" (param "masjidId" bytes32 (param "newAdmin" address nil)) nil
        nonpayable)
    ∷ (function "revoke" (param "masjidId" bytes32 nil) nil nonpayable)
    ∷ (function "flag" (param "masjidId" bytes32 nil) nil nonpayable)
    ∷ (function "unflag" (param "masjidId" bytes32 nil) nil nonpayable)
    ∷ []

abbrev pub masjid_protocol_events : List Entry
masjid_protocol_events =
    (event "MasjidRegistered"
      (param "masjidId" bytes32 (param "nameHash" bytes32 (param "proposer" address nil)))
      (param "masjidName" string (
        param "metadataUri" string
          (param "stablecoin" address (param "boardMembers" addresses nil)))))
    ∷ (event "MasjidAttested" (param "masjidId" bytes32 (param "verifier" address nil))
        (param "support" bool (param "yesCount" uint32 (param "noCount" uint32 nil))))
    ∷ (event "MasjidRejected" (param "masjidId" bytes32 nil)
        (param "attesters" addresses (param "yesCount" uint32 (param "noCount" uint32 nil))))
    ∷ (event "MasjidVerified" (param "masjidId" bytes32 (param "instance" address nil))
        (param "attesters" addresses (param "yesCount" uint32 (param "noCount" uint32 nil))))
    ∷ (event "MasjidStatusUpdated" (param "masjidId" bytes32 nil)
        (param "previousStatus" uint8 (param "newStatus" uint8 nil)))
    ∷ (event "MasjidAdminTransferred"
        (param "masjidId" bytes32 (param "previousAdmin" address (param "newAdmin" address nil)))
        nil)
    ∷ (event "FactoryDeployed" (param "factory" address nil) nil)
    ∷ []

abbrev pub masjid_protocol_errors : List Entry
masjid_protocol_errors =
    (error "NotAdmin")
    ∷ (error "NotMasjidAdmin")
    ∷ (error "NotAuthorizedVerifier")
    ∷ (error "ZeroAddress")
    ∷ (error "EmptyName")
    ∷ (error "InvalidStatus")
    ∷ (error "AlreadyAttested")
    ∷ (error "AlreadyRegisteredName")
    ∷ (error "MasjidNotFound")
    ∷ []

abbrev pub masjid_protocol_abi : List Entry
masjid_protocol_abi = masjid_protocol_functions ++ masjid_protocol_events ++ masjid_protocol_errors
