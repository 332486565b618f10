-- ===== src/Abi/Erc20.antt =====
-- ERC20_ABI of front-end/src/lib/contracts.ts, entry by entry.
use masjid_protocol.Prelude.{List, [], ◌∷◌}
use masjid_protocol.Abi.{
  Entry, function, nil, param, address, uint256, uint8, bool, string, view, nonpayable,
}

abbrev pub erc20_abi : List Entry
erc20_abi =
    (function "approve" (param "spender" address (param "amount" uint256 nil)) (param "" bool nil)
      nonpayable)
    ∷ (function "allowance" (param "owner" address (param "spender" address nil))
        (param "" uint256 nil) view)
    ∷ (function "balanceOf" (param "account" address nil) (param "" uint256 nil) view)
    ∷ (function "decimals" nil (param "" uint8 nil) view)
    ∷ (function "symbol" nil (param "" string nil) view)
    ∷ []
