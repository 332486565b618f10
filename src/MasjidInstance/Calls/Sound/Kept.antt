-- ===== src/MasjidInstance/Calls/Sound/Kept.antt =====
-- Every function of the contract keeps its state sound.
use text.Mathlib.Text.{◌==◌ as str_eq}
use masjid_protocol.CashOut.Instance.{
  zero_address_text, missing_role, zero_address, amount_zero, transfer_failed, duplicate_verifier,
  invalid_threshold, panic, Revert,
}
use masjid_protocol.Prelude.{
  ltb, ◌==◌, not, ◌-◌, ℕ, suc, ◌+◌, ◌≤◌, ◌≡◌, ◌∙◌, refl, sym, ap, subst, Bool, true, false, List,
  [], ◌∷◌, String, Result, ok, thrown, length, arith,
}
use masjid_protocol.MasjidInstance.Calls.{
  Call, Transaction, calling, elsewhere, cashing_in, proposing, approving, executing, canceling,
  setting_member, setting_threshold, setting_admin, setting_status, setting_uri, perform, settle,
  transact, transact_all,
}
use masjid_protocol.MasjidInstance.Calls.Guards.{
  passed, returned, then_ok-eq-ok, not_zero, not_below, propose-eq-ok, approve-eq-ok, execute-eq-ok,
  cancel-eq-ok,
}
use masjid_protocol.MasjidInstance.Calls.Sound.{
  Sound, proposed-Sound, approved-Sound, settled-Sound,
}
use masjid_protocol.MasjidInstance.{
  AccessControl, Token, Message, State, board_role, admin_role, add_members, constructor', cash_in,
  propose_cash_out, approve_cash_out, execute_cash_out, cancel_cash_out, set_board_member,
  set_cash_out_threshold, set_admin, set_status, set_metadata_uri,
}
use masjid_protocol.Contracts.{InstanceVerificationStatus}
use masjid_protocol.Contracts.Calls.{ProposeCashOutArgs}

module _ {R T : Type 0} (access : AccessControl R) (token : Token T) where
  zero_sum : (n : ℕ) → 0 + n ≡ n
  zero_sum n = omega arith

  unlike : false ≡ true → ⊥
  unlike h = cc

  le_suc : {m n : ℕ} → m ≤ n → m ≤ suc n
  le_suc h = omega arith

  sum_suc : (n m : ℕ) → suc n + m ≡ n + suc m
  sum_suc n m = omega arith

  -- The constructor's loop counts the members.
  add_members-length :
      (members : List String) (roles : R) (n : ℕ) {added : R × ℕ}
      → add_members access token members roles n ≡ ok added
      → added.1 ≡ n + length members
  unfolding add_members
  add_members-length [] roles n h = sym (ap (λ x. x.1) (returned h)) ∙ ground arith
  add_members-length (member ∷ members) roles n h =
      let (c1, h1) = passed (str_eq member zero_address_text) zero_address _ h in
      let (c2, h2) = passed (access.has_role board_role member roles) duplicate_verifier _ h1 in
      add_members-length members (access.grant_role board_role member roles) (suc n) h2
      ∙ sum_suc n (length members)

  pub constructor-Sound :
      (this protocol masjid_name metadata_uri masjid_admin stablecoin : String)
      (members : List String) (threshold : ℕ) (t : T) {s : State R T}
      → constructor' access token this protocol masjid_name metadata_uri masjid_admin stablecoin
          members threshold t
        ≡ ok s
      → Sound s
  unfolding constructor'
  constructor-Sound this protocol name uri admin stablecoin members threshold t h =
      let (c1, h1) = passed _ zero_address _ h in
      let (c2, h2) = passed (threshold == 0) invalid_threshold _ h1 in
      let (c3, h3) = passed (ltb (length members) threshold) invalid_threshold _ h2 in
      let (added, h4, e) = then_ok-eq-ok _ _ h3 in
      let n = add_members-length members _ 0 h4 ∙ zero_sum (length members) in
      subst Sound e (
        record {
          distinct = tt;
          counted = λ id. refl;
          settled_once = λ id both. unlike both.0;
          backed = λ id x. absurd (unlike x);
          unmade = λ id above. (refl, refl);
        },
        record {
          positive = not_zero threshold c2;
          reachable = subst (λ m. threshold ≤ m) (sym n) (not_below (length members) threshold c3);
        },
      )

  module _ (msg : Message) (s : State R T) (h : Sound s) where
    cash_in-Sound :
        (amount : ℕ) {s' : State R T} → cash_in access token msg s amount ≡ ok s' → Sound s'
    unfolding cash_in
    cash_in-Sound amount r =
        let (c1, r1) = passed _ amount_zero _ r in
        let (c2, r2) = passed _ transfer_failed _ r1 in subst Sound (returned r2) h

    propose-Sound :
        (p : ProposeCashOutArgs) {s' : State R T}
        → propose_cash_out access token msg s p ≡ ok s'
        → Sound s'
    propose-Sound p r =
        subst Sound (sym (propose-eq-ok access token msg s p r)) (proposed-Sound h.0 msg p, h.1)

    approve-Sound :
        (id : ℕ) {s' : State R T} → approve_cash_out access token msg s id ≡ ok s' → Sound s'
    approve-Sound id r =
        let (q, e) = approve-eq-ok access token msg s id r in
        subst Sound (sym e) (approved-Sound h.0 id msg.sender q.unseen q.exists q.unpaid, h.1)

    execute-Sound :
        (id : ℕ) {s' : State R T} → execute_cash_out access token msg s id ≡ ok s' → Sound s'
    execute-Sound id r =
        let (t, q, e) = execute-eq-ok access token msg s id r in
        let open_still = q.open_still in
        let enough = q.enough in
        let positive = h.1.positive in
        subst Sound (sym e)
          (settled-Sound h.0 id true _ (λ both. absurd (ground arith)) (λ x. ground arith), h.1)

    cancel-Sound :
        (id : ℕ) {s' : State R T} → cancel_cash_out access token msg s id ≡ ok s' → Sound s'
    cancel-Sound id r =
        let (exists, unpaid, open_still, e) = cancel-eq-ok access token msg s id r in
        subst Sound (sym e)
          (settled-Sound h.0 id _ true (λ both. absurd (ground arith)) (h.0.backed id), h.1)

    set_board_member-Sound :
        (member : String) (allowed : Bool) {s' : State R T}
        → set_board_member access token msg s member allowed ≡ ok s'
        → Sound s'
    unfolding set_board_member
    set_board_member-Sound member true r =
        let (c1, r1) = passed _ missing_role _ r in
        let (c2, r2) = passed _ zero_address _ r1 in
        let (c3, r3) = passed _ duplicate_verifier _ r2 in
        subst Sound (returned r3)
          (h.0, record { positive = h.1.positive; reachable = le_suc h.1.reachable })
    set_board_member-Sound member false r =
        let (c1, r1) = passed _ missing_role _ r in
        let (c2, r2) = passed _ zero_address _ r1 in
        let (c3, r3) = passed (s.board_member_count == 0) panic _ r2 in
        let (c4, r4) =
          passed (ltb (s.board_member_count - 1) s.cash_out_threshold) invalid_threshold _ r3 in
        subst Sound (returned r4)
          (h.0, record { positive = h.1.positive; reachable = not_below _ _ c4 })

    set_cash_out_threshold-Sound :
        (threshold : ℕ) {s' : State R T}
        → set_cash_out_threshold access token msg s threshold ≡ ok s'
        → Sound s'
    unfolding set_cash_out_threshold
    set_cash_out_threshold-Sound threshold r =
        let (c1, r1) =
          passed (not (access.has_role admin_role msg.sender s.roles)) missing_role _ r in
        let (c2, r2) = passed (threshold == 0) invalid_threshold _ r1 in
        let (c3, r3) = passed (ltb s.board_member_count threshold) invalid_threshold _ r2 in
        subst Sound (returned r3)
          (h.0, record { positive = not_zero _ c2; reachable = not_below _ _ c3 })

    set_admin-Sound :
        (admin : String) {s' : State R T} → set_admin access token msg s admin ≡ ok s' → Sound s'
    unfolding set_admin
    set_admin-Sound admin r =
        let (c1, r1) = passed _ missing_role _ r in
        let (c2, r2) = passed _ zero_address _ r1 in subst Sound (returned r2) h

    set_status-Sound :
        (status : InstanceVerificationStatus) {s' : State R T}
        → set_status access token msg s status ≡ ok s'
        → Sound s'
    unfolding set_status
    set_status-Sound status r = subst Sound (returned (passed _ missing_role _ r).1) h

    set_metadata_uri-Sound :
        (uri : String) {s' : State R T} → set_metadata_uri access token msg s uri ≡ ok s' → Sound s'
    unfolding set_metadata_uri
    set_metadata_uri-Sound uri r = subst Sound (returned (passed _ missing_role _ r).1) h

    perform-Sound :
        (call : Call) {s' : State R T} → perform access token msg call s ≡ ok s' → Sound s'
    unfolding perform
    perform-Sound (cashing_in amount) r = cash_in-Sound amount r
    perform-Sound (proposing p) r = propose-Sound p r
    perform-Sound (approving id) r = approve-Sound id r
    perform-Sound (executing id) r = execute-Sound id r
    perform-Sound (canceling id) r = cancel-Sound id r
    perform-Sound (setting_member member allowed) r = set_board_member-Sound member allowed r
    perform-Sound (setting_threshold threshold) r = set_cash_out_threshold-Sound threshold r
    perform-Sound (setting_admin admin) r = set_admin-Sound admin r
    perform-Sound (setting_status status) r = set_status-Sound status r
    perform-Sound (setting_uri uri) r = set_metadata_uri-Sound uri r

  settle-Sound :
      (r : Result Revert (State R T)) (s : State R T)
      → Sound s
      → ((s' : State R T) → r ≡ ok s' → Sound s')
      → Sound (settle access token r s)
  settle-Sound (ok s') s h k = k s' refl
  settle-Sound (thrown e) s h k = h

  pub transact-Sound :
      (tx : Transaction R T) (s : State R T) → Sound s → Sound (transact access token tx s)
  unfolding transact
  transact-Sound (calling msg call) s h = settle-Sound _ s h (λ s' r. perform-Sound msg s h call r)
  transact-Sound (elsewhere roles t) s h = h

  pub transacted_from :
      (txs : List (Transaction R T)) (s : State R T)
      → Sound s
      → Sound (transact_all access token txs s)
  unfolding transact_all
  transacted_from [] s h = h
  transacted_from (tx ∷ txs) s h =
      transacted_from txs (transact access token tx s) (transact-Sound tx s h)

  -- What the proofs on later transactions start from.
  pub transact_all-kept :
      (this protocol masjid_name metadata_uri masjid_admin stablecoin : String)
      (members : List String) (threshold : ℕ) (t : T) {s : State R T}
      → constructor' access token this protocol masjid_name metadata_uri masjid_admin stablecoin
          members threshold t
        ≡ ok s
      → (txs : List (Transaction R T)) → Sound (transact_all access token txs s)
  transact_all-kept this protocol name uri admin stablecoin members threshold t {s = s} h txs =
      transacted_from txs s
        (constructor-Sound this protocol name uri admin stablecoin members threshold t h)
