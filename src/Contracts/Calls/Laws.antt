-- ===== src/Contracts/Calls/Laws.antt =====
-- Every call that the pages make fits the ABI that it names.
use masjid_protocol.Prelude.Int.{ℤ, pos, negsuc}
use masjid_protocol.Prelude.{ℕ, ◌^◌, ◌<◌, List, [], ◌∷◌, String, ◌≡◌, refl, true, All, arith, ltb}
use masjid_protocol.Abi.{Call, Mutability, view, is_accepted}
use masjid_protocol.Contracts.Calls.{instance_reads, token_reads, donor_reads, cash_out_reads}

abbrev pub IsAccepted : Mutability → Call → Type 0
IsAccepted m call = is_accepted m call ≡ true

ltb_of_lt : (a b : ℕ) → a < b → ltb a b ≡ true
ltb_of_lt a b h = ground arith

-- What a `uint256` takes.
abbrev pub IsUint256 : ℤ → Type 0
IsUint256 (pos n) = n < 2 ^ 256
IsUint256 (negsuc n) = ⊥

cash_out_reads-IsAccepted :
    (instance_address : String) (ids : List ℕ)
    → All (λ id. id < 2 ^ 256) ids
    → All (IsAccepted view) (cash_out_reads instance_address ids)
unfolding cash_out_reads
cash_out_reads-IsAccepted instance_address [] h = tt
cash_out_reads-IsAccepted instance_address (id ∷ ids) (h, hs) =
    (rw (ltb_of_lt _ _ h), cash_out_reads-IsAccepted instance_address ids hs)

-- Every read that the pages make, of an instance, of its token, of a donor's balance and allowance
-- and of the cash-out requests, names a view function of its ABI and passes arguments that fit its
-- inputs, if the numbers of the requests are below 2^256.
reads-IsAccepted :
    (instance_address stablecoin user_addr : String) (ids : List ℕ)
    → All (λ id. id < 2 ^ 256) ids
    → All (IsAccepted view) (instance_reads instance_address)
      × All (IsAccepted view) (token_reads stablecoin)
      × All (IsAccepted view) (donor_reads stablecoin instance_address user_addr)
      × All (IsAccepted view) (cash_out_reads instance_address ids)
unfolding instance_reads token_reads donor_reads
reads-IsAccepted instance_address stablecoin user_addr ids h = (
  (refl, (refl, (refl, (refl, (refl, (refl, tt)))))),
  (refl, (refl, tt)),
  (refl, (refl, (refl, tt))),
  cash_out_reads-IsAccepted instance_address ids h,
)
