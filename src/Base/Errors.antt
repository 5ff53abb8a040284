-- ===== src/Base/Errors.antt =====
-- Exceptions as values. `Result A` is a call that returns or raises; `Action S A` is a call that
-- also writes to a store `S`, and what it wrote before a raise stays written.
use Prim.Native.String.{String}
use mathlib.Core.Bool.{Bool, true, false}
use mathlib.Core.Path.{◌≡◌, refl, ap, ◌∙◌}
use mathlib.Core.Logic.{◌≢◌}

-- errors.py: the classes that the modelled code raises, with the fixed part of their message.
-- `builtin_error` is any exception of Python itself (ValueError, TypeError, KeyError, OSError).
pub data Error : Type 0 where
  state_error validation_error concurrency_conflict lease_lost : String → Error
  mutation_not_certified : String → Error
  builtin_error : Error

pub data Result {ℓ} (Value : Type ℓ) : Type ℓ where
  err : Error → Result Value
  ok : Value → Result Value

-- `if c: raise e`
abbrev pub raise_if : Bool → Error → Result (Unit {0})
raise_if true e = err e
raise_if false e = ok tt

-- Run the first computation and go on with its value, unless it raises.
infixl 5 ◌>>=◌ ◌>>◌
abbrev pub ◌>>=◌ {ℓ κ} : {A : Type ℓ} {B : Type κ} → Result A → (A → Result B) → Result B
err raised >>= next = err raised
ok value >>= next = next value

abbrev pub ◌>>◌ {ℓ} : {B : Type ℓ} → Result (Unit {0}) → Result B → Result B
first >> next = first >>= λ _. next

pub ok-injective {ℓ} : {A : Type ℓ} {a b : A} → ok a ≡ ok b → a ≡ b
ok-injective h = cc

-- Change the value of a call that returned.
abbrev pub map_ok {ℓ κ} : {A : Type ℓ} {B : Type κ} → (A → B) → Result A → Result B
map_ok f (err raised) = err raised
map_ok f (ok value) = ok (f value)

pub map_ok-eq_ok {ℓ κ} :
    {A : Type ℓ} {B : Type κ} (f : A → B) (r : Result A) {b : B}
    → map_ok f r ≡ ok b
    → (a : A) × (r ≡ ok a) × (f a ≡ b)
map_ok-eq_ok f (err raised) h = cc
map_ok-eq_ok f (ok value) h = (value, refl, ok-injective h)

abbrev pub Action : Type 0 → Type 0 → Type 0
Action S A = S → Result A × S

-- A computation that only reads, run against a store: a raise leaves the store alone.
abbrev pub commit : {S A B : Type 0} → Result A → (A → S → Result B × S) → Action S B
commit (ok a) f s = f a s
commit (err e) f s = (err e, s)

-- Inversion of a successful bind.
pub >>=-eq-ok {ℓ κ} :
    {A : Type ℓ} {B : Type κ} (first : Result A) (next : A → Result B) {end : B}
    → (first >>= next) ≡ ok end
    → (value : A) × (first ≡ ok value) × (next value ≡ ok end)
>>=-eq-ok (err raised) next h = cc
>>=-eq-ok (ok value) next h = (value, refl, h)

-- A guard that passed, and what followed it.
pub raise_if-eq_ok {ℓ} :
    {A : Type ℓ} (c : Bool) (e : Error) (k : Result A) {a : A}
    → (raise_if c e >> k) ≡ ok a
    → (c ≡ false) × (k ≡ ok a)
raise_if-eq_ok true e k h = cc
raise_if-eq_ok false e k h = (refl, h)

pub err≢ok {ℓ} : {A : Type ℓ} {e : Error} {a : A} → err e ≢ ok a
err≢ok h = cc

pub >>-eq-ok {ℓ} :
    {A : Type ℓ} (m : Result (Unit {0})) (k : Result A) {a : A}
    → (m >> k) ≡ ok a
    → (m ≡ ok tt) × (k ≡ ok a)
>>-eq-ok (ok tt) k h = (refl, h)
>>-eq-ok (err e) k h = cc

-- Inversion of such a computation that returned.
pub commit-eq_ok :
    {S A B : Type 0} (r : Result A) (f : A → Action S B) (s : S) {b : B} {end : S}
    → commit r f s ≡ (ok b, end)
    → (a : A) × (r ≡ ok a) × (f a s ≡ (ok b, end))
commit-eq_ok (ok a) f s h = (a, refl, h)
commit-eq_ok (err e) f s h = cc

-- A sequence whose first part returned.
pub >>=-ok {ℓ κ} :
    {A : Type ℓ} {B : Type κ} {first : Result A} {value : A} {end : Result B} (next : A → Result B)
    → first ≡ ok value
    → next value ≡ end
    → (first >>= next) ≡ end
>>=-ok next h h' = ap (λ r. r >>= next) h ∙ h'

pub >>-ok {ℓ} :
    {A : Type ℓ} {m : Result (Unit {0})} {end : Result A} (k : Result A)
    → m ≡ ok tt
    → k ≡ end
    → (m >> k) ≡ end
>>-ok k h h' = ap (λ r. r >> k) h ∙ h'
