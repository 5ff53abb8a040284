-- ===== src/Base/Lists.antt =====
-- Lists as Python uses them: any, all, membership, sorting.
use Prim.Native.Nat.{ℕ, suc}
use Prim.Native.String.{String}
use Prim.Native.String
use mathlib.Core.Path.{◌≡◌, refl}
use mathlib.Core.Bool.{Bool, true, false, not, ◌&&◌, ◌||◌}
use mathlib.Core.List.{List, [], ◌∷◌, ◌++◌}
use native.Mathlib.Omega.{arith}
use text.Mathlib.Text.{is_le}
use text.Mathlib.TextEquality.{eq_iff}
use rexec_op.Base.Tests.{◌==◌, if◌then◌else◌}

module _ {ℓ} {A : Type ℓ} where
  abbrev pub length : List A → ℕ
  length [] = 0
  length (_ ∷ xs) = suc (length xs)

  -- `any(p(x) for x in xs)` and `all(...)`
  abbrev pub any : (A → Bool) → List A → Bool
  any p [] = false
  any p (x ∷ xs) = p x || any p xs

  abbrev pub all : (A → Bool) → List A → Bool
  all p [] = true
  all p (x ∷ xs) = p x && all p xs

-- `x in xs`
abbrev pub contains : String → List String → Bool
contains a [] = false
contains a (x ∷ xs) = a == x || contains a xs

-- `len(set(xs)) == len(xs)`
abbrev pub distinct : List String → Bool
distinct [] = true
distinct (x ∷ xs) = not (contains x xs) && distinct xs

-- `sorted(xs)`, by code points
abbrev insert_sorted : String → List String → List String
insert_sorted a [] = a ∷ []
insert_sorted a (x ∷ xs) = if is_le (String.compare a x) then a ∷ x ∷ xs else x ∷ insert_sorted a xs

abbrev pub sorted : List String → List String
sorted [] = []
sorted (x ∷ xs) = insert_sorted x (sorted xs)

pub contains-append :
    (a : String) (xs ys : List String) → contains a (xs ++ ys) ≡ (contains a xs || contains a ys)
contains-append a [] ys = refl
contains-append a (x ∷ xs) ys = ground (arith, contains-append a xs ys)

pub distinct-append_new :
    (a : String) (xs : List String)
    → contains a xs ≡ false
    → distinct xs ≡ true
    → distinct (xs ++ a ∷ []) ≡ true
distinct-append_new a [] h d = refl
distinct-append_new a (x ∷ xs) h d =
    ground (arith, eq_iff a x, eq_iff x a, contains-append x xs (a ∷ []), distinct-append_new a xs)

pub contains-sorted : (a : String) (xs : List String) → contains a (sorted xs) ≡ contains a xs
contains-sorted a [] = refl
contains-sorted a (x ∷ xs) = step (sorted xs) (contains-sorted a xs)
  where
    insert : (ys : List String) → contains a (insert_sorted x ys) ≡ (a == x || contains a ys)
    insert [] = refl
    insert (y ∷ ys) = ground (arith, insert ys)

    step :
        (ys : List String)
        → contains a ys ≡ contains a xs
        → contains a (insert_sorted x ys) ≡ (a == x || contains a xs)
    step ys h = ground (arith, insert ys)
