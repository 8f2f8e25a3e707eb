-- ===== src/Scripts/Check.antt =====
-- scripts/ws-check.ts, which waits for a status event about one order. `number` is JavaScript's `Number` of
-- a text. What happens to the script is a list; `process.exit` ends it.
use nest_js_ecomm_rd.Base.{
  ℕ, String, ◌≡◌, ◌≢◌, ◌↔◌, refl, true, not, ◌&&◌, ◌||◌, Option, none, some, List, [], ◌∷◌,
  if◌then◌else◌, ◌==◌, str_eq, eq_iff, arith, get_or, Map, empty_map, set, Number, is_finite,
  is_positive,
}
use nest_js_ecomm_rd.Errors.{internal, Result, ok, throw_if, ◌>>◌}
use nest_js_ecomm_rd.Scripts.Args.{is_key, slice_two}
use Prim.Native.Char.{code}

-- The first two parts of `s.split('=')`; the second is absent where there is no `=`.
abbrev pub before_equals : String → String
before_equals String.[] = ""
before_equals (String.◌∷◌ c s) =
    let rest = before_equals s in if code c == b'=' then "" else String.◌∷◌ c rest

abbrev pub after_equals : String → Option String
after_equals String.[] = none
after_equals (String.◌∷◌ c s) =
    let rest = after_equals s in if code c == b'=' then some (before_equals s) else rest

-- `args.set(key, value)`, if both are there.
abbrev set_given : String → Option String → Map String → Map String
set_given key none args = args
set_given key (some value) args =
    if not (str_eq key "") && not (str_eq value "") then set key value args else args

unfoldable pub read_pairs : List String → Map String → Map String
read_pairs [] args = args
read_pairs (raw_arg ∷ rest) args = read_pairs rest (
    if is_key raw_arg
    then set_given (before_equals (slice_two raw_arg)) (after_equals (slice_two raw_arg)) args
    else args)

pub record CliOptions : Type 0 where
  pub url : String
  pub token : String
  pub order_id : String
  pub timeout_ms : Number

-- `args.get(key) ?? process.env[name] ?? fallback`
abbrev option_of : Map String → (String → Option String) → String → String → String → String
option_of args env key name fallback = get_or (args key) (get_or (env name) fallback)

unfoldable pub read_options :
    (String → Number) → (String → Option String) → List String → Result CliOptions
read_options number env argv =
    let args = read_pairs argv empty_map in
    let url = option_of args env "url" "WS_URL" "http://localhost:3000/realtime" in
    let token = option_of args env "token" "WS_TOKEN" "" in
    let order_id = option_of args env "orderId" "WS_ORDER_ID" "" in
    let timeout_ms = number (option_of args env "timeoutMs" "WS_TIMEOUT_MS" "30000") in
    throw_if (str_eq token "") (internal "Missing token. Pass --token=... or set WS_TOKEN.")
    >> throw_if (str_eq order_id "")
        (internal "Missing orderId. Pass --orderId=... or set WS_ORDER_ID.")
    >> throw_if (not (is_finite timeout_ms) || not (is_positive timeout_ms))
        (internal "timeoutMs must be a positive number.")
    >> ok (record { url = url; token = token; order_id = order_id; timeout_ms = timeout_ms })

pub data Occurrence : Type 0 where
  connect connect_error order_status interrupted timed_out : Occurrence

pub data Reaction : Type 0 where
  subscribes : (order_id : String) → Reaction
  disconnects : Reaction

-- What the script does, and its exit code if it has ended.
pub record Watched : Type 0 where
  pub reactions : List Reaction
  pub exit_code : Option ℕ

abbrev shutdown : ℕ → Watched
shutdown code = record { reactions = disconnects ∷ []; exit_code = some code }

unfoldable pub watch : String → List Occurrence → Watched
watch order_id [] = record { reactions = []; exit_code = none }
watch order_id (connect ∷ rest) =
    let later = watch order_id rest in
    record later { reactions = subscribes order_id ∷ later.reactions }
watch order_id (connect_error ∷ rest) = shutdown 1
watch order_id (order_status ∷ rest) = shutdown 0
watch order_id (interrupted ∷ rest) = shutdown 130
watch order_id (timed_out ∷ rest) = shutdown 1

-- The first occurrence that is not a connection.
abbrev decisive : List Occurrence → Option Occurrence
decisive [] = none
decisive (connect ∷ rest) = decisive rest
decisive (connect_error ∷ rest) = some connect_error
decisive (order_status ∷ rest) = some order_status
decisive (interrupted ∷ rest) = some interrupted
decisive (timed_out ∷ rest) = some timed_out

-- The script exits with 0 exactly if a status event comes before an error, an interrupt and the timeout.
watch_succeeds_iff :
    (order_id : String) (happened : List Occurrence)
    → ((watch order_id happened).exit_code ≡ some 0) ↔ (decisive happened ≡ some order_status)
unfolding watch
watch_succeeds_iff order_id [] = (λ h. cc, λ h. cc)
watch_succeeds_iff order_id (connect ∷ rest) = watch_succeeds_iff order_id rest
watch_succeeds_iff order_id (connect_error ∷ rest) = (λ h. absurd (cc), λ h. absurd (cc))
watch_succeeds_iff order_id (order_status ∷ rest) = (λ h. refl, λ h. refl)
watch_succeeds_iff order_id (interrupted ∷ rest) = (λ h. absurd (cc), λ h. absurd (cc))
watch_succeeds_iff order_id (timed_out ∷ rest) = (λ h. absurd (cc), λ h. absurd (cc))

-- Options that are answered have a token, an order and a positive number of milliseconds.
read_options_checked :
    (number : String → Number) (env : String → Option String) (argv : List String)
    (options : CliOptions)
    → read_options number env argv ≡ ok options
    → (options.token ≢ "")
      × (options.order_id ≢ "")
      × (is_finite options.timeout_ms ≡ true)
      × (is_positive options.timeout_ms ≡ true)
unfolding read_options
read_options_checked number env argv options h =
    ground (arith, eq_iff options.token "", eq_iff options.order_id "")
