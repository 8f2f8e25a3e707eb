-- ===== src/Realtime/Tests.antt =====
-- Sockets, tokens and guards on small examples.
use nest_js_ecomm_rd.Base.{
  ℕ, ◌≤◌, String, ◌≡◌, ◌↔◌, refl, Bool, true, false, Option, none, some, List, [], ◌∷◌, arith,
  length, truthy, ◌&&◌, str_eq, if◌then◌else◌,
}
use nest_js_ecomm_rd.Entities.{User, Order, pending}
use nest_js_ecomm_rd.Database.{Tables, Orm, memory}
use nest_js_ecomm_rd.Auth.{JwtPayload, payload_of, login}
use nest_js_ecomm_rd.Orders.Access.{MayWatch, can_subscribe_to_order, assert_can_access_order}
use nest_js_ecomm_rd.Realtime.Gateway.{
  Handshake, Socket, new_socket, done, handle_connection, assert_rate_limit, recent,
  subscribe_order, unsubscribe_order,
}
use nest_js_ecomm_rd.Realtime.RateLimit.{answered, admitted_rate}
use nest_js_ecomm_rd.Realtime.Rooms.{
  Step, connects, subscribes, unsubscribes, step, run, WasAllowed, subscribe_order_iff,
  run_rooms_allowed,
}
use nest_js_ecomm_rd.Realtime.Login.{login_connects}

abbrev ann : User
ann = record {
  id = "u1";
  email = "ann@example.com";
  password_hash = some "hash";
  roles = "user" ∷ [];
  scopes = "orders:read" ∷ [];
  avatar_file_id = none;
}

abbrev order : Order
order = record {
  id = "o1";
  user_id = "u1";
  items = [];
  status = pending;
  idempotency_key = none;
  created_at = 0;
  updated_at = 0;
  processed_at = none;
}

abbrev shop : Tables
shop = record {
  users = ann ∷ [];
  products = [];
  orders = order ∷ [];
  order_items = [];
  processed_messages = λ id. false;
}

abbrev orm : Orm
orm = memory "o2"

abbrev verify : String → Option JwtPayload
verify token = if str_eq token "token" then some (payload_of ann) else none

abbrev handshake : Handshake
handshake = record { auth_token = some "token"; bearer = none; query_token = none }

abbrev steps : List Step
steps = connects handshake ∷ subscribes 10 (some "o1") shop ∷ []

abbrev joined : Socket
joined = record new_socket { user = some (payload_of ann) }

abbrev asks : ℕ → Step
asks now = subscribes now (some "o1") shop

abbrev hasty : List Step
hasty = asks 1 ∷ asks 2 ∷ unsubscribes (some "o1") ∷ asks 3 ∷ asks 4 ∷ asks 5 ∷ asks 6 ∷ []

admitted_rate_example :
    length (
      recent 7
        (answered (memory "o2") "" verify (handle_connection verify handshake new_socket) hasty))
    ≤ 5
admitted_rate_example =
    admitted_rate (memory "o2") "" verify handshake hasty 7
      (tt, (tt, (tt, (tt, (tt, (tt, (tt, tt)))))))
      (omega arith, (omega arith, (omega arith, (omega arith, (omega arith, (omega arith, tt))))))
      (omega arith)

-- The sixth call is refused.
five_answered :
    answered (memory "o2") "" verify (handle_connection verify handshake new_socket) hasty
    ≡ 1 ∷ 2 ∷ 3 ∷ 4 ∷ 5 ∷ []
unfolding subscribe_order assert_rate_limit handle_connection can_subscribe_to_order memory
    assert_can_access_order step unsubscribe_order
five_answered = refl

subscribe_order_iff_example : ((subscribe_order orm "" 10 (some "o1") shop joined).0 ≡ done) ↔ (
    ((assert_rate_limit 10 []).0 ≡ true)
    × ((id : String) × (truthy (some "o1") ≡ some id)
        × ((user : JwtPayload) × (joined.user ≡ some user) × MayWatch id user shop)))
subscribe_order_iff_example = subscribe_order_iff orm "" verify 10 (some "o1") shop joined

run_rooms_allowed_example : WasAllowed orm "" verify "o1" steps
unfolding run step handle_connection subscribe_order assert_rate_limit can_subscribe_to_order
    assert_can_access_order memory
run_rooms_allowed_example = run_rooms_allowed orm "" verify steps "o1" refl

abbrev find_by_email : String → Option User
find_by_email email = if str_eq email "ann@example.com" then some ann else none

abbrev compare : String → String → Bool
compare password hash = str_eq password "secret" && str_eq hash "hash"

abbrev sign : JwtPayload → String
sign payload = "token"

login_connects_example :
    (hash : String) × (ann.password_hash ≡ some hash)
    × (compare "secret" hash ≡ true)
    × ((handle_connection verify handshake new_socket).user ≡ some (payload_of ann))
unfolding login
login_connects_example =
    login_connects sign verify find_by_email compare "ann@example.com" "secret" "token" ann none
      none new_socket refl (λ e. cc) refl refl
