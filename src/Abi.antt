-- ===== src/Abi.antt =====
-- The interface descriptions of front-end/src/lib/contracts.ts: what an entry of an ABI is, the
-- values that a call passes, and the test by which a call fits an entry.
pub mod Protocol
pub mod Instance
pub mod Erc20
pub mod Registry
use masjid_protocol.Prelude.Int.{ℤ, pos, negsuc}
use text.Mathlib.Text.{◌==◌ as str_eq}
use masjid_protocol.Prelude.{
  ℕ, ◌^◌, Bool, true, false, ◌&&◌, List, [], ◌∷◌, Option, none, some, String, ltb, if◌then◌else◌,
}

mutual
  pub data AbiType : Type 0 where
    address uint256 uint64 uint32 uint8 bytes32 bool string addresses : AbiType
    tuple : Params → AbiType

  pub data Params : Type 0 where
    nil : Params
    param : (name : String) → AbiType → Params → Params

pub data Mutability : Type 0 where
  view nonpayable : Mutability

pub data Entry : Type 0 where
  constructor_entry : (inputs : Params) → Mutability → Entry
  function : (name : String) → (inputs outputs : Params) → Mutability → Entry
  event : (name : String) → (indexed unindexed : Params) → Entry
  error : (name : String) → Entry

-- The values that the pages pass to a contract; `below_zero n` is the `bigint` -(n + 1).
pub data Value : Type 0 where
  address_value bytes32_value string_value : String → Value
  uint_value : ℕ → Value
  below_zero : ℕ → Value
  bool_value : Bool → Value
  addresses_value : List String → Value

abbrev pub bigint_value : ℤ → Value
bigint_value (pos n) = uint_value n
bigint_value (negsuc n) = below_zero n

-- A call as the pages write it: the contract's address and ABI, the function's name and the
-- arguments.
pub record Call : Type 0 where
  pub target : String
  pub abi : List Entry
  pub function_name : String
  pub args : List Value

-- The bound is that of the integer type, which the encoder enforces.
abbrev pub fits : AbiType → Value → Bool
fits address (address_value a) = true
fits uint256 (uint_value n) = ltb n (2 ^ 256)
fits uint64 (uint_value n) = ltb n (2 ^ 64)
fits uint32 (uint_value n) = ltb n (2 ^ 32)
fits uint8 (uint_value n) = ltb n (2 ^ 8)
fits bytes32 (bytes32_value a) = true
fits bool (bool_value b) = true
fits string (string_value s) = true
fits addresses (addresses_value list) = true
fits _ _ = false

abbrev pub fits_all : Params → List Value → Bool
fits_all nil [] = true
fits_all (param name t ps) (v ∷ vs) = fits t v && fits_all ps vs
fits_all _ _ = false

-- The first function of that name, as its inputs and its mutability.
abbrev pub find_function : String → List Entry → Option (Params × Mutability)
find_function name [] = none
find_function name (function n inputs outputs m ∷ es) =
    if str_eq n name then some (inputs, m) else find_function name es
find_function name (_ ∷ es) = find_function name es

-- The test that the encoder makes of a call, with the mutability that the function is declared with.
abbrev pub same_mutability : Mutability → Mutability → Bool
same_mutability view view = true
same_mutability nonpayable nonpayable = true
same_mutability _ _ = false

abbrev accepts : Mutability → List Value → Option (Params × Mutability) → Bool
accepts m args none = false
accepts m args (some (inputs, n)) = same_mutability m n && fits_all inputs args

abbrev pub is_accepted : Mutability → Call → Bool
is_accepted m call = accepts m call.args (find_function call.function_name call.abi)

abbrev pub error_names : List Entry → List String
error_names [] = []
error_names (error n ∷ es) = n ∷ error_names es
error_names (_ ∷ es) = error_names es
