-- ===== src/Worker/Backoff.antt =====
-- The settings of the worker and the delay before a retry.
use native.Mathlib.Nat.{pow-zero, pow-suc, div-add-mod}
use nest_js_ecomm_rd.Base.{
  ℕ, zero, suc, ◌+◌, ◌-◌, ◌*◌, ◌^◌, ◌≤◌, ◌<◌, min, String, ◌≡◌, ◌≢◌, true, Option, List, [], ◌∷◌,
  arith, All, length, take, length-take-le, Number, nan, infinity, decimal, is_integer, is_positive,
  to_ℕ,
}
use nest_js_ecomm_rd.Orders.Message.{Text}
use nest_js_ecomm_rd.Worker.Defs.{
  Settings, number_of, parse_positive_int, compute_retry_delay_ms, first_line,
  get_short_error_reason,
}

pow-pos : (k n : ℕ) → 0 < suc k ^ n
pow-pos k zero = omega (arith, pow-zero (suc k))
pow-pos k (suc n) = rw pow-suc (ground (arith, pow-pos k n))

to_ℕ-pos : (n : Number) → is_integer n ≡ true → is_positive n ≡ true → 0 < to_ℕ n
to_ℕ-pos nan h p = cc
to_ℕ-pos (infinity negative) h p = cc
to_ℕ-pos (decimal negative m k) h p = ground (arith, div-add-mod m (10 ^ k))

-- `parsePositiveInt` gives a positive number, whatever the environment holds, if the fallback is one.
pub parse_positive_int-pos :
    (number : String → Number) (value : Option String) (fallback : ℕ)
    → 0 < fallback
    → 0 < parse_positive_int number value fallback
unfolding parse_positive_int
parse_positive_int-pos number value fallback h = ground (arith, to_ℕ-pos (number_of number value))

-- The delay is never above the limit, and never below the base delay unless the limit is.
pub compute_retry_delay_ms_bounds :
    (c : Settings) (next : ℕ)
    → (compute_retry_delay_ms c next ≤ c.retry_max_delay_ms)
      × (min c.retry_base_delay_ms c.retry_max_delay_ms ≤ compute_retry_delay_ms c next)
unfolding compute_retry_delay_ms
compute_retry_delay_ms_bounds c next =
    let factor : 1 ≤ 2 ^ (next - 1) = pow-pos 1 (next - 1) in
    let grows : c.retry_base_delay_ms ≤ c.retry_base_delay_ms * 2 ^ (next - 1) = grind arith in
    (omega arith, omega arith)

delay_suc : (base n : ℕ) → base * 2 ^ suc n ≡ 2 * (base * 2 ^ n)
delay_suc base n = rw pow-suc (omega arith)

-- The first retry waits for the base delay, and each later one twice as long as the one before,
-- both cut off at the limit.
compute_retry_delay_ms_doubles :
    (c : Settings) (attempt : ℕ)
    → (compute_retry_delay_ms c 1 ≡ min c.retry_base_delay_ms c.retry_max_delay_ms)
      × (compute_retry_delay_ms c (attempt + 2)
          ≡ min (2 * compute_retry_delay_ms c (attempt + 1)) c.retry_max_delay_ms)
unfolding compute_retry_delay_ms
compute_retry_delay_ms_doubles c attempt =
    let later : attempt + 2 - 1 ≡ suc attempt = omega arith in
    let sooner : attempt + 1 - 1 ≡ attempt = omega arith in
    (
      omega (arith, pow-zero 2),
      rw (later, sooner) (omega (arith, delay_suc c.retry_base_delay_ms attempt)),
    )

first_line-All : (raw : Text) → All (λ c. c ≢ 10) (first_line raw)
first_line-All [] = tt
first_line-All (c ∷ cs) = ground (arith, first_line-All cs)

take-All : (P : ℕ → Type 0) (n : ℕ) (xs : List ℕ) → All P xs → All P (take n xs)
take-All P zero xs h = tt
take-All P (suc n) [] h = tt
take-All P (suc n) (x ∷ xs) h = (h.0, take-All P n xs h.1)

-- The reason that goes into a message is one line of at most 160 code units.
pub get_short_error_reason_short :
    (raw : Text)
    → (length (get_short_error_reason raw) ≤ 160) × All (λ c. c ≢ 10) (get_short_error_reason raw)
unfolding get_short_error_reason
get_short_error_reason_short raw =
    (length-take-le 160 (first_line raw), take-All _ 160 (first_line raw) (first_line-All raw))
