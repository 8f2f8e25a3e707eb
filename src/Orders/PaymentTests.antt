-- ===== src/Orders/PaymentTests.antt =====
-- Creating an order over HTTP and paying for it.
use nest_js_ecomm_rd.Base.{
  ℕ, ◌+◌, ◌*◌, ◌^◌, ◌==◌, String, ◌≡◌, ◌⊎◌, refl, Bool, true, false, none, some, [], ◌∷◌, Number,
  decimal, nan, str_eq, if◌then◌else◌,
}
use nest_js_ecomm_rd.Errors.{ok}
use nest_js_ecomm_rd.Payments.{PaymentsService, authorized, initial, should_fail_transient}
use nest_js_ecomm_rd.Payments.Calls.{probes, run}
use nest_js_ecomm_rd.Payments.Controller.{is_currency}
use nest_js_ecomm_rd.Client.Failures.{DomainError}
use nest_js_ecomm_rd.Client.Retry.{Retried, value}
use nest_js_ecomm_rd.Client.Calls
use nest_js_ecomm_rd.Client.Calls.{AuthorizePaymentResponse, Milliseconds}
use nest_js_ecomm_rd.Client.Loop.{rxjs, usual, transport}
use nest_js_ecomm_rd.Client.Outage.{remote}
use nest_js_ecomm_rd.Orders.Create.{
  order_created, create, place, transaction, reserve_all, reserve, reserve_found,
}
use nest_js_ecomm_rd.Database.{memory}
use nest_js_ecomm_rd.Orders.Placement.{IsUntouched}
use nest_js_ecomm_rd.Orders.Manage.{get_order}
use nest_js_ecomm_rd.Orders.Controller.{
  AuthorizeOrderPaymentDto, payment_request, authorize_payment, create_order,
}
use nest_js_ecomm_rd.Orders.Response.{create_order_response}
use nest_js_ecomm_rd.Orders.Payment.{authorize_payment_files, authorize_payment_once}
use nest_js_ecomm_rd.Orders.Shop.{shop, dto, nobody, orm, iso, placed, after}

create_order_response_example :
    ((◌≡◌ {A = ℕ} 201 201)
      × (get_order orm "o1" after.tables ≡ ok placed)
      × (after.published ≡ order_created "m1" iso placed ∷ []))
    ⊎ ((◌≡◌ {A = ℕ} 201 200) × IsUntouched nobody shop after.tables × (after.published ≡ []))
unfolding create_order create place transaction reserve_all reserve reserve_found memory
create_order_response_example =
    create_order_response orm nobody "m1" iso dto (some "k1") shop 201 placed refl

-- Sum and product of decimals that are not negative.
abbrev plus : Number → Number → Number
plus (decimal _ m k) (decimal _ n j) = decimal false (m * 10 ^ j + n * 10 ^ k) (k + j)
plus _ _ = nan

abbrev times : Number → Number → Number
times (decimal _ m k) (decimal _ n j) = decimal false (m * n) (k + j)
times _ _ = nan

abbrev to_fixed : Number → String
to_fixed (decimal _ m k) = if m == 2100 then "21.00" else "0.00"
to_fixed _ = "NaN"

abbrev number : String → Number
number s = if str_eq s "21.00" then decimal false 2100 2 else nan

abbrev body : AuthorizeOrderPaymentDto
body = record { currency = "EUR"; idempotency_key = some "k1"; simulate_unavailable_once = none }

abbrev any_uuid : String → Bool
any_uuid s = true

abbrev Made : Type 0
Made = Retried DomainError AuthorizePaymentResponse PaymentsService Milliseconds

authorize_payment_files_example :
    (made : Made) × (authorize_payment plus times rxjs usual
        (remote transport number "p1")
        to_fixed
        orm
        any_uuid
        "o1"
        body
        after.tables
        initial
      ≡ ok made)
    × (made.waits ≡ [])
    × (a : AuthorizePaymentResponse) × (made.answer ≡ value a)
    × (made.state.payments_by_id a.payment_id
        ≡ some (record {
          payment_id = a.payment_id;
          order_id = "o1";
          status = authorized;
          amount = "21.00";
          currency = "EUR";
        }))
unfolding create place transaction reserve_all reserve reserve_found memory get_order is_currency
    should_fail_transient
authorize_payment_files_example =
    authorize_payment_files transport number rxjs usual plus times to_fixed orm any_uuid "p1" "o1"
      body after.tables initial placed
      (record { uuid = refl; stored = refl; finite = refl; positive = refl })
      (record { order = refl; named = λ e. cc; amount = refl; currency = refl }) refl refl

authorize_payment_once_example :
    let request = payment_request plus times to_fixed placed body in
    let first = Calls.authorize rxjs usual (remote transport number "p1") request initial in
    let later = run first.state (probes "o2" (some true) ∷ []) in
    (second : Made) × (authorize_payment plus times rxjs usual
        (remote transport number "p1")
        to_fixed
        orm
        any_uuid
        "o1"
        body
        after.tables
        initial
      ≡ ok first)
    × (authorize_payment plus times rxjs usual
          (remote transport number "p2")
          to_fixed
          orm
          any_uuid
          "o1"
          body
          after.tables
          later
        ≡ ok second)
    × (a : AuthorizePaymentResponse) × (a' : AuthorizePaymentResponse) × (first.answer ≡ value a)
    × (second.answer ≡ value a')
    × (a'.payment_id ≡ a.payment_id)
    × (second.state ≡ later)
unfolding create place transaction reserve_all reserve reserve_found memory get_order is_currency
    should_fail_transient
authorize_payment_once_example =
    authorize_payment_once transport number rxjs usual plus times to_fixed orm any_uuid "p1" "p2"
      "o1" "o1" "k1" body body after.tables after.tables initial placed placed
      (probes "o2" (some true) ∷ []) (λ e. cc) refl refl
      (record { uuid = refl; stored = refl; finite = refl; positive = refl })
      (record { order = refl; named = λ e. cc; amount = refl; currency = refl }) refl
      (record { uuid = refl; stored = refl; finite = refl; positive = refl })
      (record { order = refl; named = λ e. cc; amount = refl; currency = refl }) refl
