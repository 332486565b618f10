-- ===== src/Abi/Instance.antt =====
-- MASJID_INSTANCE_ABI of front-end/src/lib/contracts.ts, entry by entry.
use masjid_protocol.Prelude.{List, [], ◌∷◌, ◌++◌}
use masjid_protocol.Abi.{
  Entry, function, event, error, nil, param, address, uint256, uint64, uint32, uint8, bytes32, bool,
  string, view, nonpayable,
}

abbrev pub masjid_instance_views : List Entry
masjid_instance_views =
    (function "PROTOCOL_ROLE" nil (param "" bytes32 nil) view)
    ∷ (function "ADMIN_ROLE" nil (param "" bytes32 nil) view)
    ∷ (function "BOARD_ROLE" nil (param "" bytes32 nil) view)
    ∷ (function "hasRole" (param "role" bytes32 (param "account" address nil)) (param "" bool nil)
        view)
    ∷ (function "getRoleAdmin" (param "role" bytes32 nil) (param "" bytes32 nil) view)
    ∷ (function "MASJID_ID" nil (param "" bytes32 nil) view)
    ∷ (function "STABLECOIN" nil (param "" address nil) view)
    ∷ (function "CREATED_AT" nil (param "" uint64 nil) view)
    ∷ (function "masjidName" nil (param "" string nil) view)
    ∷ (function "metadataUri" nil (param "" string nil) view)
    ∷ (function "masjidAdmin" nil (param "" address nil) view)
    ∷ (function "status" nil (param "" uint8 nil) view)
    ∷ (function "verifiedAt" nil (param "" uint64 nil) view)
    ∷ (function "balance" nil (param "" uint256 nil) view)
    ∷ (function "treasury" nil (param "" address nil) view)
    ∷ (function "stablecoin" nil (param "" address nil) view)
    ∷ (function "cashOutThreshold" nil (param "" uint256 nil) view)
    ∷ (function "boardMemberCount" nil (param "" uint256 nil) view)
    ∷ (function "cashOutNonce" nil (param "" uint256 nil) view)
    ∷ (function "hasApprovedCashOut" (param "" uint256 (param "" address nil)) (param "" bool nil)
        view)
    ∷ (function "cashOutById" (param "" uint256 nil)
        (param "to" address (
          param "amount" uint256 (
            param "noteHash" bytes32 (
              param "proposer" address (
                param "createdAt" uint64 (
                  param "expiresAt" uint64 (
                    param "approvals" uint32
                      (param "executed" bool (param "canceled" bool nil)))))))))
        view)
    ∷ []

abbrev pub masjid_instance_functions : List Entry
masjid_instance_functions =
    (function "cashIn" (param "amount" uint256 (param "noteHash" bytes32 nil)) nil nonpayable)
    ∷ (function "proposeCashOut"
        (param "to" address
          (param "amount" uint256 (param "noteHash" bytes32 (param "expiresInSeconds" uint64 nil))))
        (param "requestId" uint256 nil) nonpayable)
    ∷ (function "approveCashOut" (param "requestId" uint256 nil) nil nonpayable)
    ∷ (function "executeCashOut" (param "requestId" uint256 nil) nil nonpayable)
    ∷ (function "cancelCashOut" (param "requestId" uint256 nil) nil nonpayable)
    ∷ (function "setBoardMember" (param "member" address (param "allowed" bool nil)) nil nonpayable)
    ∷ (function "setCashOutThreshold" (param "newThreshold" uint256 nil) nil nonpayable)
    ∷ []

abbrev pub masjid_instance_events : List Entry
masjid_instance_events =
    (event "CashIn" (param "from" address nil)
      (param "amount" uint256 (param "newBalance" uint256 (param "noteHash" bytes32 nil))))
    ∷ (event "CashOutProposed"
        (param "requestId" uint256 (param "proposer" address (param "to" address nil)))
        (param "amount" uint256 (param "noteHash" bytes32 (param "expiresAt" uint64 nil))))
    ∷ (event "CashOutApproved" (param "requestId" uint256 (param "approver" address nil))
        (param "approvals" uint32 nil))
    ∷ (event "CashOutExecuted" (param "requestId" uint256 (param "executor" address nil)) nil)
    ∷ (event "CashOutCanceled" (param "requestId" uint256 (param "canceledBy" address nil)) nil)
    ∷ (event "StatusUpdated" nil
        (param "previousStatus" uint8 (param "newStatus" uint8 (param "updatedAt" uint64 nil))))
    ∷ (event "AdminUpdated" (param "previousAdmin" address (param "newAdmin" address nil)) nil)
    ∷ (event "BoardMemberUpdated" (param "member" address nil) (param "allowed" bool nil))
    ∷ []

abbrev pub masjid_instance_errors : List Entry
masjid_instance_errors =
    (error "OnlyProtocol")
    ∷ (error "ZeroAddress")
    ∷ (error "AmountZero")
    ∷ (error "TransferFailed")
    ∷ (error "InvalidThreshold")
    ∷ (error "DuplicateVerifier")
    ∷ (error "InvalidExpiry")
    ∷ (error "InvalidStatus")
    ∷ (error "CashOutNotFound")
    ∷ (error "CashOutExpired")
    ∷ (error "CashOutAlreadyApproved")
    ∷ (error "CashOutAlreadyExecuted")
    ∷ (error "CashOutIsCanceled")
    ∷ (error "CashOutThresholdNotReached")
    ∷ []

abbrev pub masjid_instance_abi : List Entry
masjid_instance_abi =
    masjid_instance_views ++ masjid_instance_functions ++ masjid_instance_events
    ++ masjid_instance_errors
