-- ===== src/Realtime/Rooms.antt =====
-- Who is in an order's room.
use nest_js_ecomm_rd.Base.{
  ℕ, String, ◌≡◌, ◌≢◌, ◌⊎◌, ◌↔◌, inl, inr, refl, sym, subst, true, Option, some, List, [], ◌∷◌,
  arith, str_eq, eq_iff, Bool-cases, Option-cases, truthy, get_or, add,
}
use nest_js_ecomm_rd.Errors.{ok, Result-cases}
use nest_js_ecomm_rd.Auth.{JwtPayload}
use nest_js_ecomm_rd.Database.{Tables, Orm}
use nest_js_ecomm_rd.Orders.Access.{can_subscribe_to_order, MayWatch, can_subscribe_to_order_iff}
use nest_js_ecomm_rd.Realtime.Gateway.{
  Handshake, Socket, new_socket, done, order_room, get_token_from_handshake, handle_connection,
  handle_disconnect, assert_rate_limit, subscribe_order, unsubscribe_order,
}
use text.Mathlib.TextLemmas.{append_cancel_left}
use mathlib.Core.List.{Memᴰ}

order_room_inj : (a b : String) → order_room a ≡ order_room b → a ≡ b
order_room_inj a b e = append_cancel_left "order:" a b e

-- What happens to a socket, in turn. A subscription meets the tables of its moment.
pub data Step : Type 0 where
  connects : Handshake → Step
  subscribes : (now : ℕ) (payload : Option String) → Tables → Step
  unsubscribes : Option String → Step
  disconnects : Step

module _ (orm : Orm) (text : String) (verify : String → Option JwtPayload) where
  unfoldable pub step : Socket → Step → Socket
  step client (connects handshake) = handle_connection verify handshake client
  step client (subscribes now payload t) = (subscribe_order orm text now payload t client).1
  step client (unsubscribes payload) = (unsubscribe_order payload client).1
  step client disconnects = handle_disconnect client

  unfoldable pub run : Socket → List Step → Socket
  run client [] = client
  run client (s ∷ steps) = run (step client s) steps

  -- The user of a socket comes from a token that was verified.
  abbrev IsVerified : Socket → Type 0
  IsVerified client =
      (user : JwtPayload) → client.user ≡ some user → (token : String) × (verify token ≡ some user)

  -- The call went through.
  record IsJoined (now : ℕ) (payload : Option String) (t : Tables) (client : Socket) : Type 0 where
    id : String
    user : JwtPayload
    in_time : (assert_rate_limit now (get_or client.subscribe_calls [])).0 ≡ true
    named : truthy payload ≡ some id
    known : client.user ≡ some user
    allowed : can_subscribe_to_order orm id user t ≡ ok tt
    answer : (subscribe_order orm text now payload t client).0 ≡ done
    joined :
        (subscribe_order orm text now payload t client).1.rooms ≡ add (order_room id) client.rooms

  subscribe-cases :
      (now : ℕ) (payload : Option String) (t : Tables) (client : Socket)
      → (((subscribe_order orm text now payload t client).0 ≢ done)
          × ((subscribe_order orm text now payload t client).1.rooms ≡ client.rooms))
        ⊎ IsJoined now payload t client
  unfolding subscribe_order
  subscribe-cases now payload t client =
      elim (Bool-cases (assert_rate_limit now (get_or client.subscribe_calls [])).0) [
        | inr late ↦ inl (ground arith, ground arith)
        | inl in_time ↦ elim (Option-cases (truthy payload)) [
          | inl unnamed ↦ inl (ground arith, ground arith)
          | inr (id, named) ↦ elim (Option-cases client.user) [
            | inl unknown ↦ inl (ground arith, ground arith)
            | inr (user, known) ↦ elim (Result-cases (can_subscribe_to_order orm id user t)) [
              | inr (x, refused) ↦ inl (ground arith, ground arith)
              | inl (unit, allowed) ↦ inr (record {
                id = id;
                user = user;
                in_time = in_time;
                named = named;
                known = known;
                allowed = allowed;
                answer = ground arith;
                joined = ground arith;
              })
            ]
          ]
        ]
      ]

  -- `subscribeOrder` answers `ok` exactly to a call within the rate limit, for an order that is named, from
  -- a socket with a user who may watch it; the socket is then in the order's room.
  pub subscribe_order_iff :
      (now : ℕ) (payload : Option String) (t : Tables) (client : Socket)
      → ((subscribe_order orm text now payload t client).0 ≡ done) ↔ (
          ((assert_rate_limit now (get_or client.subscribe_calls [])).0 ≡ true)
          × ((id : String) × (truthy payload ≡ some id)
              × ((user : JwtPayload) × (client.user ≡ some user) × MayWatch id user t)))
  unfolding subscribe_order
  subscribe_order_iff now payload t client = (
    λ h. elim (subscribe-cases now payload t client) [
      | inl (refused, _) ↦ absurd (refused h)
      | inr j ↦ (
        j.in_time,
        (
          j.id,
          j.named,
          (j.user, j.known, (can_subscribe_to_order_iff orm j.id j.user t).0 j.allowed),
        ),
      )
    ],
    λ (in_time, (id, named, (user, known, may))).
        let allowed = (can_subscribe_to_order_iff orm id user t).1 may in ground arith,
  )

  step-rooms :
      (client : Socket) (s : Step) (id : String)
      → (step client s).rooms (order_room id) ≡ true
      → (client.rooms (order_room id) ≡ true)
        ⊎ ((payload : Option String) × (now : ℕ) × (t : Tables) × (user : JwtPayload) × (s
              ≡ subscribes now payload t)
            × (truthy payload ≡ some id)
            × (client.user ≡ some user)
            × MayWatch id user t)
  unfolding step handle_connection subscribe_order unsubscribe_order
  step-rooms client (connects handshake) id h = inl (ground arith)
  step-rooms client (subscribes now payload t) id h = elim (subscribe-cases now payload t client) [
    | inl (_, same) ↦ inl (ground arith)
    | inr j ↦ elim (Bool-cases (str_eq (order_room j.id) (order_room id))) [
      | inr apart ↦ inl (ground (arith, j.joined))
      | inl hit ↦
          let own : j.id ≡ id =
            order_room_inj j.id id ((eq_iff (order_room j.id) (order_room id)).0 hit) in
          inr (
            payload,
            now,
            t,
            j.user,
            refl,
            ground (arith, j.named),
            j.known,
            subst (λ i. MayWatch i j.user t) own
                ((can_subscribe_to_order_iff orm j.id j.user t).0 j.allowed),
          )
    ]
  ]
  step-rooms client (unsubscribes payload) id h = inl (ground arith)
  step-rooms client disconnects id h = inl (ground arith)

  step-IsVerified : (client : Socket) (s : Step) → IsVerified client → IsVerified (step client s)
  unfolding step handle_connection subscribe_order unsubscribe_order
  step-IsVerified client (connects handshake) v user h =
      elim (Option-cases (truthy (get_token_from_handshake handshake))) [
        | inl missing ↦ v user (ground arith)
        | inr (token, found) ↦ elim (Option-cases (verify token)) [
          | inl refused ↦ v user (ground arith)
          | inr (payload, verified) ↦ (token, ground arith)
        ]
      ]
  step-IsVerified client (subscribes now payload t) v user h = v user (ground arith)
  step-IsVerified client (unsubscribes payload) v user h = v user (ground arith)
  step-IsVerified client disconnects v user h = v user (ground arith)

  -- A subscription that was allowed, by a user with a verified token.
  abbrev pub WasAllowed : String → List Step → Type 0
  WasAllowed id steps =
      (payload : Option String) × (now : ℕ) × (t : Tables) × (user : JwtPayload) × (token : String)
      × Memᴰ (subscribes now payload t) steps
      × (truthy payload ≡ some id)
      × (verify token ≡ some user)
      × MayWatch id user t

  later :
      (id : String) (s : Step) (steps : List Step) → WasAllowed id steps → WasAllowed id (s ∷ steps)
  later id s steps (payload, now, t, user, token, there, named, verified, may) =
      (payload, now, t, user, token, Memᴰ.tail there, named, verified, may)

  run-rooms :
      (client : Socket) (steps : List Step) (id : String)
      → IsVerified client
      → (run client steps).rooms (order_room id) ≡ true
      → (client.rooms (order_room id) ≡ true) ⊎ WasAllowed id steps
  unfolding run
  run-rooms client [] id v h = inl h
  run-rooms client (s ∷ steps) id v h =
      elim (run-rooms (step client s) steps id (step-IsVerified client s v) h) [
        | inr allowed ↦ inr (later id s steps allowed)
        | inl here ↦ elim (step-rooms client s id here) [
          | inl before ↦ inl before
          | inr (payload, now, t, user, same, named, known, may) ↦
              let (token, verified) = v user known in
              inr (payload, now, t, user, token, Memᴰ.head (sym same), named, verified, may)
        ]
      ]

  -- A new socket is in an order's room, after whatever it has sent, only if one of its subscriptions to
  -- the order was sent when a user with a verified token could watch the order.
  pub run_rooms_allowed :
      (steps : List Step) (id : String)
      → (run new_socket steps).rooms (order_room id) ≡ true
      → WasAllowed id steps
  run_rooms_allowed steps id h = elim (run-rooms new_socket steps id (λ user e. absurd (cc)) h) [
    | inl none_yet ↦ absurd (cc)
    | inr allowed ↦ allowed
  ]
