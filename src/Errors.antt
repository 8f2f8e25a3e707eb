-- ===== src/Errors.antt =====
-- What the services throw: the HTTP exceptions of `@nestjs/common` with their message, and errors of
-- the database driver, of which the code reads the SQLSTATE in `code`. `internal` is a plain `Error`.
use nest_js_ecomm_rd.Base.{
  String, ◌≡◌, refl, ◌⊎◌, inl, inr, Bool, true, false, Option, none, some, str_eq,
}

pub data Exception : Type 0 where
  bad_request not_found conflict forbidden unauthorized : String → Exception
  driver : (code : Option String) → Exception
  internal : String → Exception

-- What a method promises: a value, or what it throws.
pub data Result {ℓ} (Value : Type ℓ) : Type ℓ where
  err : Exception → Result Value
  ok : Value → Result Value

-- `if (!value) throw error`
abbrev pub or_throw {ℓ} : {Value : Type ℓ} → Option Value → Exception → Result Value
or_throw (some value) error = ok value
or_throw none error = err error

pub or_throw-eq-ok {ℓ} :
    {Value : Type ℓ} (found : Option Value) (error : Exception) {value : Value}
    → or_throw found error ≡ ok value
    → found ≡ some value
or_throw-eq-ok (some other) error h = cc
or_throw-eq-ok none error h = cc

pub ok-injective {ℓ} : {Value : Type ℓ} {a b : Value} → ok a ≡ ok b → a ≡ b
ok-injective h = cc

-- `await`: what was thrown is thrown on.
infixl 5 ◌>>=◌
abbrev pub ◌>>=◌ {ℓ κ} :
    {Value : Type ℓ} {Next : Type κ} → Result Value → (Value → Result Next) → Result Next
err error >>= next = err error
ok value >>= next = next value

pub >>=-eq-ok {ℓ κ} :
    {Value : Type ℓ} {Next : Type κ} (first : Result Value) (next : Value → Result Next)
    {last : Next}
    → (first >>= next) ≡ ok last
    → (value : Value) × (first ≡ ok value) × (next value ≡ ok last)
>>=-eq-ok (err error) next returned = cc
>>=-eq-ok (ok value) next returned = (value, refl, returned)

-- `if (test) throw error`
abbrev pub throw_if : Bool → Exception → Result (Unit {0})
throw_if false error = ok tt
throw_if true error = err error

-- The statement after one that has no value.
infixl 5 ◌>>◌
abbrev pub ◌>>◌ {ℓ} : {Next : Type ℓ} → Result (Unit {0}) → Result Next → Result Next
checked >> next = checked >>= λ done. next

pub >>-eq-ok {ℓ} :
    {A : Type ℓ} (first : Result (Unit {0})) (rest : Result A) {a : A}
    → (first >> rest) ≡ ok a
    → (first ≡ ok tt) × (rest ≡ ok a)
>>-eq-ok (ok done) rest h = (refl, h)
>>-eq-ok (err error) rest h = cc

pub Result-cases {ℓ} :
    {Value : Type ℓ} (r : Result Value)
    → ((value : Value) × (r ≡ ok value)) ⊎ ((error : Exception) × (r ≡ err error))
Result-cases (err error) = inr (error, refl)
Result-cases (ok value) = inl (value, refl)

-- `isUniqueViolation`: an HTTP exception has no `code`.
abbrev pub is_unique_violation : Exception → Bool
is_unique_violation (driver (some code)) = str_eq code "23505"
is_unique_violation _ = false
