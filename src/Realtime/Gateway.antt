-- ===== src/Realtime/Gateway.antt =====
-- The handlers of `OrdersGateway` on one socket. Socket.IO's rooms are the field `rooms`; `verify` is
-- `jwtService.verifyAsync`, with nothing for a token that it refuses. Logging is left out.
use nest_js_ecomm_rd.Base.{
  ℕ, ◌-◌, String, Bool, true, false, not, ◌&&◌, Option, none, some, List, [], ◌∷◌, ◌++◌,
  if◌then◌else◌, ltb, leb, length, filterb, StringSet, add, str_eq, get_or, truthy,
}
use nest_js_ecomm_rd.Errors.{
  Exception, bad_request, not_found, conflict, forbidden, unauthorized, driver, internal, ok, err,
}
use nest_js_ecomm_rd.Auth.{JwtPayload}
use nest_js_ecomm_rd.Database.{Tables, Orm}
use nest_js_ecomm_rd.Orders.Message.{OrderStatusChangedEvent}
use nest_js_ecomm_rd.Orders.Access.{can_subscribe_to_order}
use Prim.Native.String.{◌++◌ as concat}

-- What the handshake carries: a field is absent when it is missing or no text. `bearer` is the rest of
-- an authorization header that begins with `bearer `, trimmed.
pub record Handshake : Type 0 where
  pub auth_token : Option String
  pub bearer : Option String
  pub query_token : Option String

-- `client.data`, its rooms, and whether it is connected.
pub record Socket : Type 0 where
  pub user : Option JwtPayload
  pub subscribe_calls : Option (List ℕ)
  pub rooms : StringSet
  pub connected : Bool

abbrev pub new_socket : Socket
new_socket = record { user = none; subscribe_calls = none; rooms = λ room. false; connected = true }

-- The answer to a message: `{ ok: true }`, or a `WsException`.
pub data Reply : Type 0 where
  done : Reply
  ws_exception : String → Reply

abbrev pub order_room : String → String
order_room order_id = concat "order:" order_id

abbrev pub get_token_from_handshake : Handshake → Option String
get_token_from_handshake h = elim (truthy h.auth_token) [
  | some token ↦ some token
  | none ↦ elim h.bearer [ some token ↦ some token | none ↦ truthy h.query_token ]
]

abbrev pub disconnect : Socket → Socket
disconnect client = record client { connected = false; rooms = λ room. false }

-- The token is empty where `bearer ` stands alone.
unfoldable pub handle_connection : (String → Option JwtPayload) → Handshake → Socket → Socket
handle_connection verify handshake client = elim (truthy (get_token_from_handshake handshake)) [
  | none ↦ disconnect client
  | some token ↦ elim (verify token) [
    | none ↦ disconnect client
    | some payload ↦ record client { user = some payload; subscribe_calls = some [] }
  ]
]

abbrev pub handle_disconnect : Socket → Socket
handle_disconnect client = elim client.subscribe_calls [
  | none ↦ client
  | some calls ↦ record client { subscribe_calls = some [] }
]

abbrev pub window_ms : ℕ
window_ms = 3000

abbrev pub max_calls : ℕ
max_calls = 5

-- The calls that are less than a window before `now`.
abbrev pub recent : ℕ → List ℕ → List ℕ
recent now calls = filterb (λ t. ltb (now - t) window_ms) calls

-- Whether the call may go on, and the list that is left in both cases.
unfoldable pub assert_rate_limit : ℕ → List ℕ → Bool × List ℕ
assert_rate_limit now calls =
    if leb max_calls (length (recent now calls))
    then (false, recent now calls)
    else (true, recent now calls ++ now ∷ [])

-- `err?.message`: an HTTP exception and a plain error have one; what a driver's error says is the argument.
abbrev pub message_of : String → Exception → String
message_of text (bad_request message) = message
message_of text (not_found message) = message
message_of text (conflict message) = message
message_of text (forbidden message) = message
message_of text (unauthorized message) = message
message_of text (driver code) = text
message_of text (internal message) = message

module _ (orm : Orm) (text : String) where
  -- After the rate limit and the check of the payload.
  abbrev pub join_order : String → Option JwtPayload → Tables → Socket → Reply × Socket
  join_order order_id none t client = (ws_exception "Unauthenticated", client)
  join_order order_id (some user) t client = elim (can_subscribe_to_order orm order_id user t) [
    | err error ↦ (ws_exception (message_of text error), client)
    | ok allowed ↦ (Reply.done, record client { rooms = add (order_room order_id) client.rooms })
  ]

  abbrev pub with_order : Option String → Tables → Socket → Reply × Socket
  with_order none t client = (ws_exception "orderId is required", client)
  with_order (some order_id) t client = join_order order_id client.user t client

  -- `payload` is the order's identifier, absent where it is no text.
  unfoldable pub subscribe_order : ℕ → Option String → Tables → Socket → Reply × Socket
  subscribe_order now payload t client =
      let (may, calls) = assert_rate_limit now (get_or client.subscribe_calls []) in
      let client' = record client { subscribe_calls = some calls } in
      if not may
      then (ws_exception "Rate limit exceeded", client')
      else with_order (truthy payload) t client'

abbrev remove : String → StringSet → StringSet
remove room rooms r = if str_eq room r then false else rooms r

unfoldable pub unsubscribe_order : Option String → Socket → Reply × Socket
unsubscribe_order payload client = elim (truthy payload) [
  | none ↦ (ws_exception "orderId is required", client)
  | some order_id ↦ (done, record client { rooms = remove (order_room order_id) client.rooms })
]

-- `emitOrderStatus`: whether a socket is sent the event.
abbrev pub hears : OrderStatusChangedEvent → Socket → Bool
hears event client = client.connected && client.rooms (order_room event.order_id)
