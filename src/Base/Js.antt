-- ===== src/Base/Js.antt =====
-- What the source uses of the JavaScript language: truthiness of optional strings, `Map` and `Set`
-- keyed by strings, `Array.prototype.includes`, and numbers.
use Prim.Native.Nat.{ℕ, ◌/◌, ◌%◌, ◌^◌}
use Prim.Native.Char.{code}
use Prim.Native.String.{String}
use mathlib.Core.Bool.{Bool, true, false, not, ◌&&◌, ◌||◌}
use mathlib.Core.Option.{Option, none, some}
use mathlib.Core.List.{List, [], ◌∷◌}
use text.Mathlib.Text.{◌==◌ as str_eq}
use nest_js_ecomm_rd.Base.Tests.{◌==◌, if◌then◌else◌}

-- `if (s)` for `s?: string`: absent and empty texts count as false.
abbrev pub truthy : Option String → Option String
truthy none = none
truthy (some s) = if str_eq s "" then none else some s

-- A text as its code points.
abbrev pub codes : String → List ℕ
codes String.[] = []
codes (String.◌∷◌ c s) = code c ∷ codes s

-- `s ?? d`
abbrev pub get_or {ℓ} : {A : Type ℓ} → Option A → A → A
get_or none d = d
get_or (some a) d = a

abbrev pub is_some {ℓ} : {A : Type ℓ} → Option A → Bool
is_some none = false
is_some (some a) = true

-- `Map<string, V>` and `Set<string>`; no code depends on their order of iteration.
abbrev pub Map {ℓ} : Type ℓ → Type ℓ
Map V = String → Option V

abbrev pub StringSet : Type 0
StringSet = String → Bool

module _ {ℓ} {V : Type ℓ} where
  abbrev pub empty_map : Map V
  empty_map k = none

  -- `m.set(k, v)`
  abbrev pub set : String → V → Map V → Map V
  set k v m j = if str_eq k j then some v else m j

abbrev pub add : String → StringSet → StringSet
add k s j = if str_eq k j then true else s j

-- `xs.includes(x)`
abbrev pub includes : List String → String → Bool
includes [] x = false
includes (y ∷ ys) x = str_eq y x || includes ys x

-- A number value. `decimal negative m k` is m / 10 ^ k, with a minus sign if `negative`.
pub data Number : Type 0 where
  nan : Number
  infinity : (negative : Bool) → Number
  decimal : (negative : Bool) (mantissa scale : ℕ) → Number

-- `Number.isFinite(x)`
abbrev pub is_finite : Number → Bool
is_finite (decimal negative m k) = true
is_finite _ = false

-- `Number.isInteger(x)`
abbrev pub is_integer : Number → Bool
is_integer (decimal negative m k) = m % 10 ^ k == 0
is_integer _ = false

-- `x > 0`
abbrev pub is_positive : Number → Bool
is_positive nan = false
is_positive (infinity negative) = not negative
is_positive (decimal negative m k) = not negative && not (m == 0)

-- `x >= 0`, at an integer.
abbrev pub is_nonneg : Number → Bool
is_nonneg nan = false
is_nonneg (infinity negative) = not negative
is_nonneg (decimal negative m k) = not negative || m == 0

-- The integer that a non-negative integral number stands for.
abbrev pub to_ℕ : Number → ℕ
to_ℕ (decimal negative m k) = m / 10 ^ k
to_ℕ _ = 0
