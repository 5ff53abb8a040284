-- ===== src/Base/Actions.antt =====
-- Sequencing of calls that write to a store.
use mathlib.Core.Path.{◌≡◌, refl}
use mathlib.Core.Bool.{Bool, true, false}
use rexec_op.Base.Tests.{if◌then◌else◌}
use rexec_op.Base.Errors.{Error, Result, ok, err, Action}

abbrev pub returns : {S A : Type 0} → A → Action S A
returns a s = (ok a, s)

abbrev pub lift : {S A : Type 0} → Result A → Action S A
lift r s = (r, s)

-- Go on with what a call left, unless it raised.
abbrev pub go_on : {S A B : Type 0} → Result A × S → (A → Action S B) → Result B × S
go_on (ok a, s) next = next a s
go_on (err e, s) next = (err e, s)

infixl 5 ◌>>=◌ ◌>>◌
abbrev pub ◌>>=◌ : {S A B : Type 0} → Action S A → (A → Action S B) → Action S B
(first >>= next) s = go_on (first s) next

abbrev pub ◌>>◌ : {S B : Type 0} → Action S (Unit {0}) → Action S B → Action S B
first >> next = first >>= λ _. next

-- Inversion of a sequence that returned.
pub go_on-eq_ok :
    {S A B : Type 0} (first : Result A × S) (next : A → Action S B) {b : B} {end : S}
    → go_on first next ≡ (ok b, end)
    → (a : A) × (s : S) × (first ≡ (ok a, s)) × (next a s ≡ (ok b, end))
go_on-eq_ok (ok a, s) next h = (a, s, refl, h)
go_on-eq_ok (err e, s) next h = cc

-- A choice between two calls, by what the chosen one left.
pub by_branch :
    {S A : Type 0} {R : Type 0} (c : Bool) (first second : Action S A) (s : S) {left : Result A × S}
    → (if c then first else second) s ≡ left
    → (c ≡ true → first s ≡ left → R)
    → (c ≡ false → second s ≡ left → R)
    → R
by_branch true first second s h f g = f refl h
by_branch false first second s h f g = g refl h

pub lift-eq_ok :
    {S A B : Type 0} (r : Result A) (s : S) (next : A → Action S B) {b : B} {end : S}
    → go_on (r, s) next ≡ (ok b, end)
    → (a : A) × (r ≡ ok a) × (next a s ≡ (ok b, end))
lift-eq_ok (ok a) s next h = (a, refl, h)
lift-eq_ok (err e) s next h = cc

-- What holds of a raise, and of what follows a value, holds of a sequence.
pub lift-holds :
    {S A B : Type 0} (Holds : Result B × S → Type 0) (r : Result A) (s : S) (next : A → Action S B)
    → ((e : Error) → Holds (err e, s))
    → ((a : A) → r ≡ ok a → Holds (next a s))
    → Holds (go_on (r, s) next)
lift-holds Holds (ok a) s next f g = g a refl
lift-holds Holds (err e) s next f g = f e

-- What a call that returned has returned and left.
pub returned :
    {S A : Type 0} {a b : A} {s s' : S}
    → ◌≡◌ {A = Result A × S} (ok a, s) (ok b, s')
    → (b ≡ a) × (s' ≡ s)
returned h = (cc, cc)

-- A call whose value is returned beside another one.
pub paired-eq_ok :
    {S A C : Type 0} (c : C) (first : Result A × S) {x : C} {y : A} {end : S}
    → go_on {B = C × A} first (λ a. returns (c, a)) ≡ (ok (x, y), end)
    → (x ≡ c) × (first ≡ (ok y, end))
paired-eq_ok c (ok a, s) h = (cc, cc)
paired-eq_ok c (err e, s) h = (cc, cc)
