-- ===== src/Scripts/Args.antt =====
-- `readArgs` of scripts/publish-order-message.js, and `Number.parseInt(text, 10)` without the rounding
-- to 53 bits. An argument that is not a key after a key is its value.
use nest_js_ecomm_rd.Base.{
  ℕ, ◌+◌, ◌-◌, ◌*◌, String, ◌≡◌, refl, Bool, true, false, ◌&&◌, ◌||◌, Option, none, some, List, [],
  ◌∷◌, ◌==◌, leb, str_eq, if◌then◌else◌, arith, codes, get_or, Map, set, All, Number, nan, decimal,
}
use Prim.Native.Char.{code}

-- `token.startsWith('--')`
abbrev pub is_key : String → Bool
is_key (String.◌∷◌ a (String.◌∷◌ b s)) = code a == b'-' && code b == b'-'
is_key _ = false

-- `token.slice(2)`; the first two characters are ASCII where it is used.
abbrev pub slice_two : String → String
slice_two (String.◌∷◌ a (String.◌∷◌ b s)) = s
slice_two _ = ""

unfoldable pub read_args : List String → Map String → Map String
read_args [] args = args
read_args (token ∷ []) args = if is_key token then set (slice_two token) "true" args else args
read_args (token ∷ maybe_value ∷ rest) args = elim (is_key token) [
  | false ↦ read_args (maybe_value ∷ rest) args
  | true ↦ elim (str_eq maybe_value "" || is_key maybe_value) [
    | true ↦ read_args (maybe_value ∷ rest) (set (slice_two token) "true" args)
    | false ↦ read_args rest (set (slice_two token) maybe_value args)
  ]
]

-- White space and line ends of JavaScript.
abbrev is_space : ℕ → Bool
is_space c =
    leb 9 c && leb c 13
    || c == 32
    || c == 160
    || c == 5760
    || leb 8192 c && leb c 8202
    || c == 8232
    || c == 8233
    || c == 8239
    || c == 8287
    || c == 12288
    || c == 65279

abbrev skip_space : List ℕ → List ℕ
skip_space [] = []
skip_space (c ∷ cs) = let rest = skip_space cs in if is_space c then rest else c ∷ cs

-- The number of the digits at the front, if there are any.
abbrev leading : Option ℕ → List ℕ → Option ℕ
leading value [] = value
leading value (c ∷ cs) =
    let rest = leading (some (get_or value 0 * 10 + (c - b'0'))) cs in
    if leb b'0' c && leb c b'9' then rest else value

abbrev unsigned : Bool → List ℕ → Number
unsigned negative cs = elim (leading none cs) [ none ↦ nan | some n ↦ decimal negative n 0 ]

abbrev signed : List ℕ → Number
signed [] = nan
signed (c ∷ cs) =
    if c == b'-'
    then unsigned true cs
    else if c == b'+'
    then unsigned false cs
    else unsigned false (c ∷ cs)

unfoldable pub parse_int : String → Number
parse_int s = signed (skip_space (codes s))

-- A command line that gives each key its value.
abbrev pub command_line : List (String × String) → List String
command_line [] = []
command_line ((key, value) ∷ pairs) =
    String.◌∷◌ "-" (String.◌∷◌ "-" key) ∷ value ∷ command_line pairs

-- The value that comes last in the pairs for a key.
abbrev pub last_value : String → List (String × String) → Option String
last_value k [] = none
last_value k ((key, value) ∷ pairs) = elim (last_value k pairs) [
  | some later ↦ some later
  | none ↦ if str_eq key k then some value else none
]

-- The value is not empty and not taken for a key.
abbrev pub IsPlain : String × String → Type 0
IsPlain (key, value) = (str_eq value "" ≡ false) × (is_key value ≡ false)

-- After a command line that gives each of its keys a plain value, each key has the value that was given last
-- for it; the other keys have what they had.
pub read_args-after :
    (pairs : List (String × String)) (args : Map String) (k : String)
    → All IsPlain pairs
    → read_args (command_line pairs) args k
      ≡ elim (last_value k pairs) [ some v ↦ some v | none ↦ args k ]
unfolding read_args
read_args-after [] args k all = refl
read_args-after ((key, value) ∷ pairs) args k ((full, plain), all) =
    let rest = read_args-after pairs (set key value args) k all in ground (arith, full, plain, rest)
