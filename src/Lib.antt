-- ===== src/Lib.antt =====
-- The front end of Masjid Protocol: a web application by which donors give to masjids, boards propose
-- cash-outs and register masjids, verifiers vote on registrations, and an administrator keeps the
-- registry of verifiers. It talks to a server (a session by a signed message, lists) and, by the
-- user's wallet, to four contracts. The model is of the TypeScript code under front-end/src, and of
-- the contracts under smart-contract/src/protocol.
--
-- Files, and what they model:
-- - Abi, Abi/Protocol, Abi/Instance, Abi/Erc20, Abi/Registry, Contracts: front-end/src/lib/contracts.ts,
--   the ABIs entry by entry, what it means that a call fits an entry, and the shared types.
-- - Contracts/Calls: the arguments of each contract call of the pages (app/board/hooks.ts,
--   app/masjid/[id]/hooks.ts, app/verifier/ui.tsx, app/admin/ui.tsx).
-- - ContractErrors: front-end/src/lib/contractErrors.ts, from a thrown value to the message shown.
-- - Wallet: the mutations of app/board/hooks.ts and app/masjid/[id]/hooks.ts, as a monad whose state is
--   the list of the transactions handed to the wallet.
-- - Auth: lib/auth.ts and hooks/useAuth.ts, the token, the change event and the hooks that listen to
--   it; Auth/Requests: the requests of lib/auth.ts; Auth/Session and Auth/Requests/Session: what any
--   sequence of these operations keeps.
-- - Access: components/AuthGuard.tsx, components/Layout.tsx, and `roleRedirect`.
-- - CashOut: the requests on the dashboard (`useCashOutRequests`, `cashOutStatusBadge`,
--   `CashOutActions`); CashOut/Instance: the checks of three functions of
--   smart-contract/src/protocol/MasjidInstance.sol, against which the pages are compared.
-- - MasjidInstance, MasjidInstance/Storage: that contract as a whole; MasjidInstance/Deployed: its
--   deployment after a registration; MasjidInstance/Calls: its functions as calls and any
--   sequence of transactions, with what they keep (Sound, Final), that money can be paid out
--   (Progress), a miscount (Miscount), and what only the protocol's contract can change (Protected,
--   ByProtocol).
-- - MasjidProtocol, MasjidProtocol/Storage: smart-contract/src/protocol/MasjidProtocol.sol, the
--   registrations and the votes; MasjidProtocol/Laws: votes; MasjidProtocol/Calls: its functions as
--   calls and any sequence of transactions, with how they change the storage (Changes), the votes
--   (Votes), the names (Names) and the statuses (Moves).
-- - VerifierRegistry: smart-contract/src/protocol/VerifierRegistry.sol, the verifiers and the quorum,
--   against a list of accounts (VerifierRegistry/Accounts, VerifierRegistry/Laws).
-- - MasjidFactory: smart-contract/src/protocol/MasjidFactory.sol, and the contracts it has deployed.
-- - System: the contracts together, as the transactions of any accounts change them; System/Linked,
--   System/Sound: how their storages agree; System/Decisions: the administrators' calls; System/Ties
--   and System/Boards: votes that cannot be decided, and boards that cannot be deployed.
-- - Propose: `proposeSchema` and `ProposeCashOutForm` of app/board/ui.tsx; Propose/Page: the form on the
--   dashboard, as a state machine.
-- - Board, Board/Dashboard: app/board/api.ts, `useBoardDashboard` and `BoardDashboardInner`;
--   Board/Cards: its numbers and texts; Board/Masjids: app/board/page.tsx and
--   app/board/dashboard/page.tsx.
-- - Donate: app/masjid/[id]/components/DonateForm.tsx, a state machine with its mutations in flight;
--   Donate/Negative: negative amounts.
-- - Connect: app/connect/ui.tsx, the sign-in page as a state machine.
-- - Register: app/board/register/ui.tsx and lib/pinata.ts; Register/Page: the page as a state machine.
-- - Verifier, Verifier/Tables, Admin, Admin/Forms: app/verifier/ui.tsx and app/admin/ui.tsx.
-- - Explorer: app/ui.tsx, the public list of masjids.
-- - Masjid: app/masjid/[id]/types.ts and api.ts; Masjid/Page and Masjid/Names: the page of
--   app/masjid/[id]/ui.tsx; Masjid/Published: a registration and the page that reads its document.
-- - Idrx, Utils: lib/idrx.ts and lib/utils.ts, amounts, addresses and links as texts.
-- - Prelude: shared names, texts, integers, rounding, reverts. Tests: concrete data and the theorems at it.
--
-- How the parts interact: the pages build calls (Contracts/Calls), hand them to the wallet (Wallet),
-- and show what was thrown (ContractErrors). The session (Auth) decides what the guards and the header
-- show (Access), and the sign-in page (Connect) goes where Access says. The dashboard (Board) shows
-- the requests of CashOut and opens the form of Propose. A registration (Register) pins a document
-- that the public page (Masjid) reads; between them stands the interface `Storage` of Masjid/Published.
-- The contract (MasjidInstance) uses the interfaces `AccessControl` and `Token`. The contract of the
-- registrations (MasjidProtocol) reads a `Registry`, which System fills from VerifierRegistry, and
-- calls the interface `Instances`, which MasjidFactory fills with the contracts it has deployed.
--
-- Names are the source's in snake case. A component's state is a record; a handler is a function from
-- states to states; a mutation is a function to a result and the transactions sent. State machines have
-- an `Event`, a `handle`, the guards of the controls in `can_happen`, and `Reachable` states.
--
-- Parameters: viem (`isAddress`, `parseUnits`, `keccak256`), wagmi (`simulateContract`,
-- `writeContractAsync`, `waitForTransactionReceipt`), the server, the pinning service, `JSON.parse`,
-- `Intl.NumberFormat`, the reading of a text as a number, `trim`, `toLowerCase`, and the clock. The
-- hypothesis of a theorem on such a parameter is an equation with an answer that it gives, or a
-- law of one of the interfaces: a pinned document is served as JSON under its hash; a role that
-- was granted is held, revoking a role that is not held changes nothing, and granting or revoking
-- one changes no other; the simulation throws for a call that does not fit its ABI (`Encodes`);
-- `keccak256` has no collisions on the numbers of the masjids, which are not 0 (`Hashes`); and the
-- addresses of new contracts differ and are not 0 (`CreatedAddresses`).
--
-- Bounds and fuel: numbers are natural numbers; amounts are below 2^256 and lifetimes below 2^64 where
-- a theorem says so. `Auth.dispatch` has the nesting depth of the event as fuel, and depth 2 is enough
-- for any browser with a hook mounted. Quotients are exact, where the code has floating-point numbers.
--
-- Not modelled: of the contracts their events, gas, and a call back from the token or from a masjid's
-- contract during a call; the deployment scripts of the contracts; the Go back end; the caches of
-- react-query (what they hold is an argument); styles, and the fixed texts of the pages.
pub mod Prelude
pub mod Abi
pub mod ContractErrors
pub mod Contracts
pub mod Wallet
pub mod Auth
pub mod Access
pub mod CashOut
pub mod Donate
pub mod Connect
pub mod Register
pub mod Propose
pub mod Board
pub mod Idrx
pub mod Verifier
pub mod Admin
pub mod Utils
pub mod Masjid
pub mod MasjidFactory
pub mod MasjidInstance
pub mod MasjidProtocol
pub mod Explorer
pub mod Tests
pub mod System
pub mod VerifierRegistry
