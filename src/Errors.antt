-- ===== src/Errors.antt =====
-- packages/snapcook-core/src/snapcook_core/errors.py: the error tree, and the computations that
-- may raise. Python's own exceptions that the code can raise stand beside the library's.
use snap_cook.Common.{Bool, true, false, ◌≡◌, refl, ap, subst, ◌⊎◌, inl, inr}

pub data Error : Type 0 where
  graph_error cyclic_graph dangling_reference : Error
  object_not_found ref_not_found : Error
  key_error index_error type_error value_error out_of_fuel : Error
  invalid_operation : Error
  http404 multiple_objects_returned : Error
  float_error canonicalization_error : Error
  incompatible_dimensions no_density no_count_weight not_scalable : Error
  schema_version_error concurrent_write : Error

-- What a call gives: the exception that it raised, or its value.
pub data Result {ℓ} (T : Type ℓ) : Type ℓ where
  err : (raised : Error) → Result T
  ok : (value : T) → Result T

infixl 5 ◌>>◌ ◌>>=◌
-- The statements behind a call whose value they use: an exception passes them by.
abbrev pub ◌>>=◌ {κ ℓ} :
    {T : Type κ} {U : Type ℓ} (call : Result T) (next : T → Result U) → Result U
err raised >>= next = err raised
ok value >>= next = next value

-- The statements behind a check.
abbrev pub ◌>>◌ {ℓ} : {U : Type ℓ} (check : Result (Unit {0})) (next : Result U) → Result U
check >> next = check >>= λ _. next

-- `if c: raise e`
abbrev pub raise_if : Bool → Error → Result (Unit {0})
raise_if true e = err e
raise_if false e = ok tt

-- A value behind a call is that of the rest on the value of the call.
pub >>=-eq-ok {κ ℓ} :
    {T : Type κ} {U : Type ℓ} (call : Result T) (next : T → Result U) {u : U}
    → (call >>= next) ≡ ok u
    → (value : T) × (call ≡ ok value) × (next value ≡ ok u)
>>=-eq-ok (err raised) next gives = cc gives
>>=-eq-ok (ok value) next gives = (value, refl, gives)

-- Past a check that did not raise.
pub raise_if-eq-ok {ℓ} :
    {B : Type ℓ} (c : Bool) (e : Error) (m : Result B) {b : B}
    → (raise_if c e >> m) ≡ ok b
    → (c ≡ false) × (m ≡ ok b)
raise_if-eq-ok true e m h = cc
raise_if-eq-ok false e m h = (refl, h)

-- What every value that a call can give satisfies.
unfoldable pub Holds : {A : Type 0} → (A → Type 0) → Result A → Type 0
Holds P (err raised) = Unit
Holds P (ok value) = P value

pub >>=-Holds :
    {A B : Type 0} (P : A → Type 0) (Q : B → Type 0) (call : Result A) (next : A → Result B)
    → Holds P call
    → ((a : A) → P a → Holds Q (next a))
    → Holds Q (call >>= next)
unfolding Holds
>>=-Holds P Q (err raised) next h k = tt
>>=-Holds P Q (ok value) next h k = k value h

-- Behind a call of which nothing is known.
pub >>=-Holds_any :
    {A B : Type 0} (Q : B → Type 0) (call : Result A) (next : A → Result B)
    → ((a : A) → Holds Q (next a))
    → Holds Q (call >>= next)
unfolding Holds
>>=-Holds_any Q (err raised) next k = tt
>>=-Holds_any Q (ok value) next k = k value

pub Holds-ok :
    {A : Type 0} (P : A → Type 0) {call : Result A} {a : A} → call ≡ ok a → Holds P call → P a
unfolding Holds
Holds-ok P e h = subst (Holds P) e h

pub ok-Holds : {A : Type 0} (P : A → Type 0) (a : A) → P a → Holds P (ok a)
unfolding Holds
ok-Holds P a h = h

-- Behind a call that gave a value.
pub >>=-ok {κ ℓ} :
    {T : Type κ} {U : Type ℓ} {call : Result T} {value : T} (next : T → Result U)
    → call ≡ ok value
    → (call >>= next) ≡ next value
>>=-ok next e = ap (λ r. r >>= next) e

-- Behind a call that raised.
pub >>=-err {κ ℓ} :
    {T : Type κ} {U : Type ℓ} {call : Result T} {raised : Error} (next : T → Result U)
    → call ≡ err raised
    → (call >>= next) ≡ err raised
>>=-err next e = ap (λ r. r >>= next) e

pub Result-cases {ℓ} :
    {T : Type ℓ} (call : Result T)
    → ((raised : Error) × (call ≡ err raised)) ⊎ ((value : T) × (call ≡ ok value))
Result-cases (err raised) = inl (raised, refl)
Result-cases (ok value) = inr (value, refl)
