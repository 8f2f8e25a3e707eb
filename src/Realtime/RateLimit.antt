-- ===== src/Realtime/RateLimit.antt =====
-- The rate limit of `subscribeOrder`: a sliding window.
use nest_js_ecomm_rd.Base.{
  ℕ, ◌+◌, ◌-◌, ◌≤◌, ◌≡◌, inl, inr, subst, refl, sym, ap, ◌∙◌, true, false, List, [], ◌∷◌, ◌++◌,
  arith, if◌then◌else◌, ltb, length, length-append, length-filterb-le, Bool-cases, Bool, All,
  Option, String, get_or,
}
use nest_js_ecomm_rd.Realtime.Gateway.{
  recent, assert_rate_limit, window_ms, max_calls, Handshake, Socket, new_socket, Reply, done,
  ws_exception, handle_connection, subscribe_order, unsubscribe_order,
}
use nest_js_ecomm_rd.Realtime.Rooms.{Step, connects, subscribes, unsubscribes, disconnects, step}
use nest_js_ecomm_rd.Auth.{JwtPayload}
use nest_js_ecomm_rd.Database.{Tables, Orm}

-- The times stand in the order in which they came, none before `from`.
abbrev pub IsAscending : ℕ → List ℕ → Type 0
IsAscending from [] = Unit
IsAscending from (now ∷ times) = (from ≤ now) × IsAscending now times

abbrev pub latest : ℕ → List ℕ → ℕ
latest from [] = from
latest from (now ∷ times) = latest now times

-- The times of the calls that may go on, from a list of earlier ones.
unfoldable pub admitted : List ℕ → List ℕ → List ℕ
admitted calls [] = []
admitted calls (now ∷ times) =
    let (may, calls') = assert_rate_limit now calls in
    let rest = admitted calls' times in if may then now ∷ rest else rest

recent-++ : (now : ℕ) (xs ys : List ℕ) → recent now (xs ++ ys) ≡ recent now xs ++ recent now ys
recent-++ now [] ys = refl
recent-++ now (x ∷ xs) ys = ground (arith, recent-++ now xs ys)

-- What a later window holds was in the earlier one.
recent-recent :
    (now later : ℕ) (xs : List ℕ) → now ≤ later → recent later (recent now xs) ≡ recent later xs
recent-recent now later [] h = refl
recent-recent now later (x ∷ xs) h = ground (arith, recent-recent now later xs h)

++-assoc_one : (xs : List ℕ) (y : ℕ) (zs : List ℕ) → (xs ++ y ∷ []) ++ zs ≡ xs ++ y ∷ zs
++-assoc_one [] y zs = refl
++-assoc_one (x ∷ xs) y zs = ap (λ l. x ∷ l) (++-assoc_one xs y zs)

++-nil : (xs : List ℕ) → xs ++ [] ≡ xs
++-nil [] = refl
++-nil (x ∷ xs) = ap (λ l. x ∷ l) (++-nil xs)

assert-refused :
    (now : ℕ) (calls : List ℕ)
    → (assert_rate_limit now calls).0 ≡ false
    → (assert_rate_limit now calls).1 ≡ recent now calls
unfolding assert_rate_limit
assert-refused now calls h = ground arith

assert-admitted :
    (now : ℕ) (calls : List ℕ)
    → (assert_rate_limit now calls).0 ≡ true
    → ((assert_rate_limit now calls).1 ≡ recent now calls ++ now ∷ [])
      × (length (recent now calls) + 1 ≤ max_calls)
unfolding assert_rate_limit
assert-admitted now calls h = (ground arith, ground arith)

-- A socket's list shows every window from now on as the whole log does, and none is over the limit.
record IsLimited (from : ℕ) (calls log : List ℕ) : Type 0 where
  agree : (later : ℕ) → from ≤ later → recent later calls ≡ recent later log
  few : (later : ℕ) → from ≤ later → length (recent later log) ≤ max_calls

refused-IsLimited :
    (from now : ℕ) (calls log : List ℕ)
    → from ≤ now
    → IsLimited from calls log
    → IsLimited now (recent now calls) log
refused-IsLimited from now calls log h l = record {
  agree = λ later k. recent-recent now later calls k ∙ l.agree later (omega arith);
  few = λ later k. l.few later (omega arith);
}

recent-one-le : (later now : ℕ) → length (recent later (now ∷ [])) ≤ 1
recent-one-le later now = ground arith

admitted-IsLimited :
    (from now : ℕ) (calls log : List ℕ)
    → from ≤ now
    → length (recent now calls) + 1 ≤ max_calls
    → IsLimited from calls log
    → IsLimited now (recent now calls ++ now ∷ []) (log ++ now ∷ [])
admitted-IsLimited from now calls log h room l = record {
  agree = λ later k.
      recent-++ later (recent now calls) (now ∷ [])
      ∙ ap (λ xs. xs ++ recent later (now ∷ []))
          (recent-recent now later calls k ∙ l.agree later (omega arith))
      ∙ sym (recent-++ later log (now ∷ []));
  few = λ later k.
      let same = recent-recent now later calls k ∙ l.agree later (omega arith) in
      let shorter = length-filterb-le (λ t. ltb (later - t) window_ms) (recent now calls) in
      let whole =
        ap length (recent-++ later log (now ∷ []))
        ∙ length-append (recent later log) (recent later (now ∷ [])) in
      omega (arith, ap length same, shorter, whole, recent-one-le later now, room);
}

admitted-few :
    (from : ℕ) (calls log times : List ℕ)
    → IsAscending from times
    → IsLimited from calls log
    → (later : ℕ) → latest from times ≤ later
    → length (recent later (log ++ admitted calls times)) ≤ max_calls
unfolding admitted
admitted-few from calls log [] up l later h =
    subst (λ xs. length (recent later xs) ≤ max_calls) (sym (++-nil log)) (l.few later h)
admitted-few from calls log (now ∷ times) (k, up) l later h =
    elim (Bool-cases (assert_rate_limit now calls).0) [
      | inr refused ↦
          let kept = assert-refused now calls refused in
          rw (refused, kept)
            (admitted-few now (recent now calls) log times up
              (refused-IsLimited from now calls log k l) later h)
      | inl may ↦
          let (kept, room) = assert-admitted now calls may in
          rw (may, kept)
            (subst (λ xs. length (recent later xs) ≤ max_calls)
              (++-assoc_one log now (admitted (recent now calls ++ now ∷ []) times))
              (admitted-few now (recent now calls ++ now ∷ []) (log ++ now ∷ []) times up
                (admitted-IsLimited from now calls log k room l) later h))
    ]

-- The subscription calls among what a socket sends.
abbrev pub times_of : List Step → List ℕ
times_of [] = []
times_of (subscribes now payload t ∷ steps) = now ∷ times_of steps
times_of (_ ∷ steps) = times_of steps

-- A message of the client, not the begin or the end of its connection.
abbrev pub IsMessage : Step → Type 0
IsMessage (subscribes now payload t) = Unit
IsMessage (unsubscribes payload) = Unit
IsMessage _ = ⊥

abbrev is_done : Reply → Bool
is_done done = true
is_done (ws_exception message) = false

calls_of : Socket → List ℕ
calls_of client = get_or client.subscribe_calls []

module _ (orm : Orm) (text : String) (verify : String → Option JwtPayload) where
  -- The times of the subscription calls that `subscribeOrder` answers with `ok`.
  abbrev pub answered : Socket → List Step → List ℕ
  answered client [] = []
  answered client (subscribes now payload t ∷ steps) =
      let (reply, client') = subscribe_order orm text now payload t client in
      let rest = answered client' steps in if is_done reply then now ∷ rest else rest
  answered client (connects handshake ∷ steps) =
      answered (step orm text verify client (connects handshake)) steps
  answered client (unsubscribes payload ∷ steps) =
      answered (step orm text verify client (unsubscribes payload)) steps
  answered client (disconnects ∷ steps) = answered (step orm text verify client disconnects) steps

  subscribe-calls :
      (now : ℕ) (payload : Option String) (t : Tables) (client : Socket)
      → (calls_of (subscribe_order orm text now payload t client).1
          ≡ (assert_rate_limit now (calls_of client)).1)
        × ((assert_rate_limit now (calls_of client)).0 ≡ false
            → is_done (subscribe_order orm text now payload t client).0 ≡ false)
  unfolding subscribe_order calls_of
  subscribe-calls now payload t client = (ground arith, λ late. ground (arith, late))

  unsubscribe-calls :
      (payload : Option String) (client : Socket)
      → calls_of (step orm text verify client (unsubscribes payload)) ≡ calls_of client
  unfolding step unsubscribe_order calls_of
  unsubscribe-calls payload client = ground arith

  -- Only calls that the rate limit admits are answered with `ok`.
  answered-le :
      (later : ℕ) (client : Socket) (steps : List Step)
      → All IsMessage steps
      → length (recent later (answered client steps))
        ≤ length (recent later (admitted (calls_of client) (times_of steps)))
  unfolding admitted
  answered-le later client [] all = omega arith
  answered-le later client (subscribes now payload t ∷ steps) (_, all) =
      let (calls, refused) = subscribe-calls now payload t client in
      let rest = answered-le later (subscribe_order orm text now payload t client).1 steps all in
      let rest' =
        subst
          (λ cs.
            length (recent later (answered (subscribe_order orm text now payload t client).1 steps))
            ≤ length (recent later (admitted cs (times_of steps))))
          calls rest in
      elim (Bool-cases (assert_rate_limit now (calls_of client)).0) [
        | inr late ↦ let silent = refused late in ground (arith, late, silent, rest')
        | inl may ↦ ground (arith, may, rest')
      ]
  answered-le later client (unsubscribes payload ∷ steps) (_, all) =
      let rest = answered-le later (step orm text verify client (unsubscribes payload)) steps all in
      subst
        (λ cs.
          length
            (recent later (answered (step orm text verify client (unsubscribes payload)) steps))
          ≤ length (recent later (admitted cs (times_of steps))))
        (unsubscribe-calls payload client) rest
  answered-le later client (connects handshake ∷ steps) (impossible, all) = elim impossible [ ]
  answered-le later client (disconnects ∷ steps) (impossible, all) = elim impossible [ ]

  handle_connection-calls :
      (handshake : Handshake) → calls_of (handle_connection verify handshake new_socket) ≡ []
  unfolding handle_connection calls_of
  handle_connection-calls handshake = ground arith

  -- On one connection, of the subscription calls that `subscribeOrder` answers with `ok`, whatever else the
  -- client sends, at most five fall into any window of three seconds: at each time from the last call on, no
  -- more than five of them are less than a window old.
  pub admitted_rate :
      (handshake : Handshake) (steps : List Step) (later : ℕ)
      → All IsMessage steps
      → IsAscending 0 (times_of steps)
      → latest 0 (times_of steps) ≤ later
      → length (recent later (answered (handle_connection verify handshake new_socket) steps)) ≤ 5
  admitted_rate handshake steps later all up h =
      let start = handle_connection verify handshake new_socket in
      let few =
        admitted-few 0 [] [] (times_of steps) up
          (record { agree = λ n k. refl; few = λ n k. omega arith }) later h in
      let fewer =
        subst
          (λ cs.
            length (recent later (answered start steps))
            ≤ length (recent later (admitted cs (times_of steps))))
          (handle_connection-calls handshake) (answered-le later start steps all) in
      omega (arith, few, fewer)
