-- ===== src/Contracts/Calls.antt =====
-- The contract calls of the pages, as the arguments of `simulateContract` and `useReadContract(s)`:
-- front-end/src/app/board/hooks.ts, app/masjid/[id]/hooks.ts, app/verifier/ui.tsx, app/admin/ui.tsx.
pub mod Laws
use masjid_protocol.Prelude.Int.{ℤ}
use masjid_protocol.Abi.{
  bigint_value, Call, address_value, bytes32_value, string_value, uint_value, bool_value,
  addresses_value,
}
use masjid_protocol.Prelude.{ℕ, Bool, List, [], ◌∷◌, map, String}
use masjid_protocol.Abi.Protocol.{masjid_protocol_abi}
use masjid_protocol.Abi.Instance.{masjid_instance_abi}
use masjid_protocol.Abi.Erc20.{erc20_abi}
use masjid_protocol.Abi.Registry.{verifier_registry_abi}
use masjid_protocol.Contracts.{Addresses}

pub record ProposeCashOutArgs : Type 0 where
  pub instance_address : String
  pub to : String
  pub amount : ℕ
  pub note_hash : String
  pub ttl : ℕ

pub record RegisterMasjidArgs : Type 0 where
  pub name : String
  pub metadata_uri : String
  pub stablecoin : String
  pub board_members : List String

pub record ApproveArgs : Type 0 where
  pub stablecoin : String
  pub spender : String
  pub amount : ℕ

unfoldable pub propose_cash_out_call : ProposeCashOutArgs → Call
propose_cash_out_call p = record {
  target = p.instance_address;
  abi = masjid_instance_abi;
  function_name = "proposeCashOut";
  args =
      address_value p.to ∷ uint_value p.amount ∷ bytes32_value p.note_hash ∷ uint_value p.ttl ∷ [];
}

unfoldable pub execute_cash_out_call : String → ℕ → Call
execute_cash_out_call instance_address request_id = record {
  target = instance_address;
  abi = masjid_instance_abi;
  function_name = "executeCashOut";
  args = uint_value request_id ∷ [];
}

unfoldable pub cancel_cash_out_call : String → ℕ → Call
cancel_cash_out_call instance_address request_id = record {
  target = instance_address;
  abi = masjid_instance_abi;
  function_name = "cancelCashOut";
  args = uint_value request_id ∷ [];
}

unfoldable pub register_call : Addresses → RegisterMasjidArgs → Call
register_call a p = record {
  target = a.masjid_protocol_address;
  abi = masjid_protocol_abi;
  function_name = "register";
  args =
      string_value p.name
      ∷ string_value p.metadata_uri
      ∷ address_value p.stablecoin
      ∷ addresses_value p.board_members
      ∷ [];
}

unfoldable pub approve_call : ApproveArgs → Call
approve_call p = record {
  target = p.stablecoin;
  abi = erc20_abi;
  function_name = "approve";
  args = address_value p.spender ∷ uint_value p.amount ∷ [];
}

unfoldable pub cash_in_call : String → ℤ → String → Call
cash_in_call instance_addr amount note_hash = record {
  target = instance_addr;
  abi = masjid_instance_abi;
  function_name = "cashIn";
  args = bigint_value amount ∷ bytes32_value note_hash ∷ [];
}

unfoldable pub attest_call : Addresses → String → Bool → Call
attest_call a masjid_id support = record {
  target = a.masjid_protocol_address;
  abi = masjid_protocol_abi;
  function_name = "attest";
  args = bytes32_value masjid_id ∷ bool_value support ∷ [];
}

unfoldable pub add_verifier_call : Addresses → String → String → Call
add_verifier_call a verifier label = record {
  target = a.verifier_registry_address;
  abi = verifier_registry_abi;
  function_name = "addVerifier";
  args = address_value verifier ∷ string_value label ∷ [];
}

unfoldable pub remove_verifier_call : Addresses → String → Call
remove_verifier_call a verifier = record {
  target = a.verifier_registry_address;
  abi = verifier_registry_abi;
  function_name = "removeVerifier";
  args = address_value verifier ∷ [];
}

abbrev instance_read : String → String → Call
instance_read instance_address name = record {
  target = instance_address;
  abi = masjid_instance_abi;
  function_name = name;
  args = [];
}

-- The reads of `useInstanceContracts`.
unfoldable pub instance_reads : String → List Call
instance_reads instance_address = map (instance_read instance_address) (
    "status" ∷ "cashOutThreshold" ∷ "boardMemberCount" ∷ "cashOutNonce" ∷ "STABLECOIN" ∷ "balance"
    ∷ [])

-- The reads of `useTokenInfo` on the board's pages.
unfoldable pub token_reads : String → List Call
token_reads stablecoin =
    map (λ name. record { target = stablecoin; abi = erc20_abi; function_name = name; args = [] })
      ("decimals" ∷ "symbol" ∷ [])

-- The reads of `useTokenInfo` on the page of a masjid.
unfoldable pub donor_reads : String → String → String → List Call
donor_reads stablecoin spender user_addr =
    record { target = stablecoin; abi = erc20_abi; function_name = "decimals"; args = [] }
    ∷ record {
      target = stablecoin;
      abi = erc20_abi;
      function_name = "balanceOf";
      args = address_value user_addr ∷ [];
    }
    ∷ record {
      target = stablecoin;
      abi = erc20_abi;
      function_name = "allowance";
      args = address_value user_addr ∷ address_value spender ∷ [];
    }
    ∷ []

-- The reads of `useCashOutRequests`, one for each request.
unfoldable pub cash_out_reads : String → List ℕ → List Call
cash_out_reads instance_address request_ids =
    map
      (λ id. record {
        target = instance_address;
        abi = masjid_instance_abi;
        function_name = "cashOutById";
        args = uint_value id ∷ [];
      })
      request_ids
