-- ===== src/Tests/Pages.antt =====
-- The theorems on the forms and the dashboard at concrete data.
use masjid_protocol.Donate.Negative.{Encodes, negative-refused}
use masjid_protocol.Wallet.{Wallet, cash_in}
use masjid_protocol.Abi.{Call, is_accepted, nonpayable}
use masjid_protocol.ContractErrors.{js_error}
use masjid_protocol.Prelude.{
  ◌∷◌, List, ok, thrown, ℕ, ◌≡◌, ◌⊎◌, if◌then◌else◌, refl, true, false, Option, none, some, String,
}
use text.Mathlib.Text.{◌==◌ as str_eq}
use masjid_protocol.Prelude.Int.{ℤ, pos, negsuc, is_zero, at_least, exceeds}
use masjid_protocol.Connect
use masjid_protocol.Connect.{Page, account_effect, role_panel}
use masjid_protocol.Connect.Laws as ConnectLaws
use masjid_protocol.Auth.{Claims}
use masjid_protocol.Tests.{itself, member}
use masjid_protocol.Donate
use masjid_protocol.Donate.{
  Form, Env, parse_donate_amount, cash_in_flight, approve_flight, idle, change_amount,
}
use masjid_protocol.Donate.Laws as DonateLaws

-- "700" is the only text that is a positive number, "-1" the only one that is a negative.
abbrev parse_units : String → ℕ → Option ℤ
parse_units text dec =
    if str_eq text "700" then some (pos 700) else if str_eq text "-1" then some (negsuc 0) else none

abbrev env : Env
env = record { user_addr = some "0x1"; dec = 2; balance = 5000; allowance = 100 }

abbrev typed : String → Form
typed text = Donate.handle parse_units env Donate.init (change_amount text)

typed_lem : (text : String) → Donate.Reachable parse_units (typed text)
unfolding Donate.can_happen
typed_lem text = Donate.next env Donate.init (change_amount text) Donate.start refl

enabled : Donate.can_happen parse_units env (typed "700") Donate.submit ≡ true
unfolding Donate.can_happen Donate.handle
enabled = refl

-- The amount is above the allowance, so an approval is asked for and granted, and the donation sent.
abbrev asked : Form
asked = Donate.handle parse_units env (typed "700") Donate.submit

abbrev granted : Form
granted = Donate.handle parse_units env asked Donate.approve_succeeded

abbrev donated : Form
donated = Donate.handle parse_units env granted Donate.allowance_refetched

donated_lem : Donate.Reachable parse_units donated
unfolding Donate.can_happen Donate.handle
donated_lem =
    Donate.next env granted Donate.allowance_refetched
      (Donate.next env asked Donate.approve_succeeded
        (Donate.next env (typed "700") Donate.submit (typed_lem "700") enabled) refl)
      refl

form-IsSound_example : DonateLaws.IsSound donated
form-IsSound_example = DonateLaws.form-IsSound parse_units donated donated_lem

submit-sends_example :
    (amount : ℤ) × (parse_donate_amount parse_units (typed "700").amount env.dec ≡ amount)
    × (is_zero amount ≡ false)
    × (exceeds amount env.balance ≡ false)
    × (((at_least env.allowance amount ≡ true)
          × ((Donate.handle parse_units env (typed "700") Donate.submit).flights
              ≡ cash_in_flight amount (typed "700").note ∷ (typed "700").flights))
        ⊎ ((at_least env.allowance amount ≡ false)
            × ((Donate.handle parse_units env (typed "700") Donate.submit).flights
                ≡ approve_flight amount (typed "700").note ∷ (typed "700").flights)))
submit-sends_example = DonateLaws.submit-sends parse_units env (typed "700") enabled

abbrev minus : Form
minus = record Donate.init { amount = "-1" }

minus_one : parse_donate_amount parse_units minus.amount env.dec ≡ negsuc 0
unfolding parse_donate_amount
minus_one = refl

-- The encoder throws, and what it lets pass is written and mined.
abbrev encoder : Wallet
encoder = record {
  simulate = λ call. if is_accepted nonpayable call then ok call else thrown (js_error "range");
  write = λ call. ok "0xhash";
  receipt = λ hash. ok hash;
}

encoder-Encodes : Encodes encoder
encoder-Encodes call h = (js_error "range", rw h refl)

negative-refused_example :
    (Donate.can_happen parse_units env minus Donate.submit ≡ true)
    × ((Donate.handle parse_units env minus Donate.submit).flights
        ≡ cash_in_flight (negsuc 0) minus.note ∷ minus.flights)
    × ((message : String) × ((log : List Call)
          → cash_in encoder itself itself "0xf" (negsuc 0) minus.note log ≡ (thrown message, log)))
negative-refused_example =
    negative-refused parse_units encoder itself itself "0xf" env minus 0 encoder-Encodes refl refl
      minus_one

abbrev nameless : Claims
nameless = record member { name = "" }

-- The page on which the wallet of a session without a name has connected.
abbrev resumed : Page
resumed = Connect.handle itself itself Connect.init (account_effect (some "0x1") (some nameless))

-- The page on which a wallet without a session has signed in, with a name.
abbrev signing_page : Page
signing_page = Connect.handle itself itself Connect.init (account_effect (some "0x1") none)

abbrev welcomed : Page
welcomed = Connect.handle itself itself signing_page (Connect.login_succeeded member)

welcomed_lem : Connect.Reachable itself itself welcomed
unfolding Connect.can_happen Connect.handle
welcomed_lem =
    Connect.next signing_page (Connect.login_succeeded member)
      (Connect.next Connect.init (account_effect (some "0x1") none) Connect.start refl) refl

page-IsSound_example : ConnectLaws.IsSound (ConnectLaws.Met itself itself welcomed_lem) welcomed
page-IsSound_example = ConnectLaws.page-IsSound itself itself welcomed welcomed_lem

resumed_panel : Connect.panel_at resumed.step resumed ≡ role_panel "" none false
unfolding Connect.handle Connect.panel_at
resumed_panel = refl
