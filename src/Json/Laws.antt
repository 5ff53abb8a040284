-- ===== src/Json/Laws.antt =====
-- The laws of the dict operations, in `if` form.
use rexec_op.Base.{
  String, ◌≡◌, refl, ◌≢◌, true, false, ◌||◌, List, [], ◌∷◌, arith, eq_iff, ◌==◌, ==_refl, contains,
  if◌then◌else◌, distinct, Option, none, some, Bool-cases, inl, inr,
}
use rexec_op.Json.{
  Value, null, Fields, end, field, get, has, put, pop, keys, to_list, of_list, present, is_empty,
}

pub get-put :
    (k j : String) (v : Value) (d : Fields) → get j (put k v d) ≡ (if j == k then v else get j d)
get-put k j v end = refl
get-put k j v (field i w d) = ground (arith, eq_iff j k, eq_iff k i, eq_iff j i, get-put k j v d)

pub get-put_self : (k : String) (v : Value) (d : Fields) → get k (put k v d) ≡ v
get-put_self k v d = ground (arith, get-put k k v d, ==_refl k)

pub get-put_ne : (k j : String) (v : Value) (d : Fields) → j ≢ k → get j (put k v d) ≡ get j d
get-put_ne k j v d h = ground (arith, get-put k j v d, eq_iff j k)

pub has-put : (k j : String) (v : Value) (d : Fields) → has j (put k v d) ≡ (j == k || has j d)
has-put k j v end = refl
has-put k j v (field i w d) = ground (arith, eq_iff j k, eq_iff k i, eq_iff j i, has-put k j v d)

pub get-pop_ne : (k j : String) (d : Fields) → j ≢ k → get j (pop k d) ≡ get j d
get-pop_ne k j end h = refl
get-pop_ne k j (field i w d) h = ground (arith, eq_iff k i, eq_iff j i, get-pop_ne k j d h)

-- A dict has each key once.
abbrev pub HasUniqueKeys : Fields → Type 0
HasUniqueKeys d = distinct (keys d) ≡ true

pub contains-keys : (k : String) (d : Fields) → contains k (keys d) ≡ has k d
contains-keys k end = refl
contains-keys k (field j v d) = ground (arith, contains-keys k d)

pub get_absent : (k : String) (d : Fields) → has k d ≡ false → get k d ≡ null
get_absent k end h = refl
get_absent k (field j v d) h = ground (arith, get_absent k d)

pub has-pop_self : (k : String) (d : Fields) → HasUniqueKeys d → has k (pop k d) ≡ false
has-pop_self k end u = refl
has-pop_self k (field j v d) u =
    ground (arith, eq_iff k j, contains-keys k d, has-pop_self k d, contains-keys j d)

pub put-HasUniqueKeys :
    (k : String) (v : Value) (d : Fields) → HasUniqueKeys d → HasUniqueKeys (put k v d)
put-HasUniqueKeys k v end u = refl
put-HasUniqueKeys k v (field j w d) u = ground (
  arith,
  eq_iff k j,
  eq_iff j k,
  contains-keys j d,
  contains-keys k d,
  contains-keys j (put k v d),
  has-put k j v d,
  put-HasUniqueKeys k v d,
)

pub to_list-of_list : (xs : List Value) → to_list (of_list xs) ≡ xs
to_list-of_list [] = refl
to_list-of_list (x ∷ xs) = rw (to_list-of_list xs)

-- A dict that counts as a record.
pub present-eq_some : (found : Option Fields) {d : Fields} → present found ≡ some d → found ≡ some d
present-eq_some none h = cc
present-eq_some (some e) h = elim (Bool-cases (is_empty e)) [
  | inl empty ↦ absurd (none≢some (rw empty at h))
  | inr full ↦ rw full at h
]
  where
    none≢some : {d : Fields} → none ≡ some d → ⊥
    none≢some h = cc

pub pop_absent : (k : String) (d : Fields) → has k d ≡ false → pop k d ≡ d
pop_absent k end h = refl
pop_absent k (field j v d) h = ground (arith, pop_absent k d)

pub pop-put : (k : String) (v : Value) (d : Fields) → has k d ≡ false → pop k (put k v d) ≡ d
pop-put k v end h = ground (arith, ==_refl k)
pop-put k v (field j w d) h = ground (arith, pop-put k v d)
