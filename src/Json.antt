-- ===== src/Json.antt =====
-- The values of `json.loads` as Python sees them, and the dict operations of the modelled code.
-- JSON numbers are integers here: the code reads no float but the monotonic clock, which is kept
-- as its number of microseconds. A dict keeps its entries in insertion order.
pub mod Laws
pub mod Python
pub mod Coerce
use rexec_op.Base.{
  ℕ, suc, String, Bool, true, false, not, ◌&&◌, ◌||◌, List, [], ◌∷◌, Option, none, some, ◌==◌,
  bool_eq, leb, if◌then◌else◌,
}
use rexec_op.Base.Int.{ℤ, pos, eq_ℤ}

mutual
  pub data Fields : Type 0 where
    end : Fields
    field : String → Value → Fields → Fields

  pub data Items : Type 0 where
    nil : Items
    cons : Value → Items → Items

  pub data Value : Type 0 where
    obj : Fields → Value
    arr : Items → Value
    str : String → Value
    int : ℤ → Value
    bool : Bool → Value
    null : Value

-- `d.get(k)`: None where the key is missing.
abbrev pub get : String → Fields → Value
get k end = null
get k (field j v d) = if k == j then v else get k d

-- `k in d`
abbrev pub has : String → Fields → Bool
has k end = false
has k (field j v d) = k == j || has k d

-- `d[k] = v`
abbrev pub put : String → Value → Fields → Fields
put k v end = field k v end
put k v (field j w d) = if k == j then field k v d else field j w (put k v d)

-- `d.pop(k, None)`
abbrev pub pop : String → Fields → Fields
pop k end = end
pop k (field j w d) = if k == j then d else field j w (pop k d)

-- `list(d)`
abbrev pub keys : Fields → List String
keys end = []
keys (field k v d) = k ∷ keys d

-- `list(d.values())`
abbrev pub values : Fields → List Value
values end = []
values (field k v d) = v ∷ values d

-- The items of a JSON array as a list, and back.
abbrev pub to_list : Items → List Value
to_list nil = []
to_list (cons v xs) = v ∷ to_list xs

abbrev pub of_list : List Value → Items
of_list [] = nil
of_list (v ∷ xs) = cons v (of_list xs)

-- `not d`
abbrev pub is_empty : Fields → Bool
is_empty end = true
is_empty (field k v d) = false

-- `v == s` for a text `s`
abbrev pub is_text : String → Value → Bool
is_text s (str t) = t == s
is_text s _ = false

-- `isinstance(v, str) and bool(v)`
abbrev pub is_nonempty_text : Value → Bool
is_nonempty_text (str t) = not (t == "")
is_nonempty_text _ = false

-- `v is True`
abbrev pub is_true : Value → Bool
is_true (bool b) = b
is_true _ = false

abbrev pub bit : Bool → ℤ
bit true = pos 1
bit false = pos 0

-- Each key of the first dict is a key of the second.
abbrev pub all_keys_in : Fields → Fields → Bool
all_keys_in end a = true
all_keys_in (field k v b) a = has k a && all_keys_in b a

-- Python's `a == b`: True is 1 and False is 0; dicts are compared without their order.
unfoldable mutual
  pub same : Value → Value → Bool
  same null null = true
  same (bool a) (bool b) = bool_eq a b
  same (bool a) (int n) = eq_ℤ (bit a) n
  same (int n) (bool b) = eq_ℤ n (bit b)
  same (int n) (int m) = eq_ℤ n m
  same (str s) (str t) = s == t
  same (arr xs) (arr ys) = same_items xs ys
  same (obj a) (obj b) = within a b && all_keys_in b a
  same _ _ = false

  pub same_items : Items → Items → Bool
  same_items nil nil = true
  same_items (cons v xs) (cons w ys) = same v w && same_items xs ys
  same_items _ _ = false

  -- Each entry of the first dict is an entry of the second.
  pub within : Fields → Fields → Bool
  within end b = true
  within (field k v a) b = has k b && (same v (get k b) && within a b)

-- A JSON file: `unreadable` is a file that cannot be opened, made private or parsed.
pub data JsonFile : Type 0 where
  missing unreadable : JsonFile
  readable : Value → JsonFile

-- `if not record`, for a dict or None: an empty dict counts as none.
abbrev pub present : Option Fields → Option Fields
present none = none
present (some d) = if is_empty d then none else some d
