-- ===== src/Client/Retry.antt =====
-- The operator `retry({ count, delay })` of rxjs. It is not part of the repository: `Rxjs` has it as a
-- parameter, with its documented behaviour as the relation `Runs`.
use nest_js_ecomm_rd.Base.{ℕ, ◌+◌, ◌≤◌, ◌<◌, ◌≡◌, Option, none, some, List, [], ◌∷◌}

-- What one subscription to a source gives.
pub data Answer (E A : Type 0) : Type 0 where
  value : A → Answer E A
  failure : E → Answer E A

-- The answer of the whole, the state that is left, and the delays waited for in between.
pub record Retried (E A S W : Type 0) : Type 0 where
  pub answer : Answer E A
  pub state : S
  pub waits : List W

-- `pass` is what happens to the state while the operator waits.
module _ {E A S W : Type 0} (count : ℕ) (delay : E → ℕ → Option W) (pass : W → S → S)
    (source : S → Answer E A × S) where
  -- `Runs used s r`: with `used` retries behind it, in the state `s`, the operator ends as `r`. `delay`
  -- gives the time to wait, or nothing if it throws the error again.
  pub data Runs : ℕ → S → Retried E A S W → Type 0 where
    emits :
        {used : ℕ} {s s' : S} {a : A}
        → source s ≡ (value a, s')
        → Runs used s (record { answer = value a; state = s'; waits = [] })
    used_up :
        {used : ℕ} {s s' : S} {e : E}
        → source s ≡ (failure e, s')
        → count ≤ used
        → Runs used s (record { answer = failure e; state = s'; waits = [] })
    gives_up :
        {used : ℕ} {s s' : S} {e : E}
        → source s ≡ (failure e, s')
        → used < count
        → delay e (used + 1) ≡ none
        → Runs used s (record { answer = failure e; state = s'; waits = [] })
    again :
        {used : ℕ} {s s' : S} {e : E} {w : W} {r : Retried E A S W}
        → source s ≡ (failure e, s')
        → used < count
        → delay e (used + 1) ≡ some w
        → Runs (used + 1) (pass w s') r
        → Runs used s (record r { waits = w ∷ r.waits })

pub record Rxjs (E A S W : Type 0) : Type 0 where
  pub retry : ℕ → (E → ℕ → Option W) → (W → S → S) → (S → Answer E A × S) → S → Retried E A S W
  pub retry-Runs :
      (count : ℕ) (delay : E → ℕ → Option W) (pass : W → S → S) (source : S → Answer E A × S)
      (s : S)
      → Runs count delay pass source 0 s (retry count delay pass source s)
