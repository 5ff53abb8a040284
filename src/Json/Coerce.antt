-- ===== src/Json/Coerce.antt =====
-- What Python's list, dict, bool and str make of a JSON value, as the modelled code uses them.
use rexec_op.Base.{
  String, Bool, true, false, not, List, [], ◌∷◌, map, ◌==◌, if◌then◌else◌, Result, ok, err,
  builtin_error, Option, none, some,
}
use rexec_op.Base.Int.{ℤ, pos, eq_ℤ}
use rexec_op.Json.{
  Value, null, bool, int, str, arr, obj, nil, cons, Fields, end, get, has, keys, is_empty, to_list,
}
use rexec_op.Json.Python.{Python, to_text}

abbrev pub characters : String → List Value
characters String.[] = []
characters (String.◌∷◌ c s) = str (String.◌∷◌ c String.[]) ∷ characters s

-- `list(v or [])`
abbrev pub list_or_empty : Value → Result (List Value)
list_or_empty null = ok []
list_or_empty (bool b) = if b then err builtin_error else ok []
list_or_empty (int n) = if eq_ℤ n (pos 0) then ok [] else err builtin_error
list_or_empty (str s) = ok (characters s)
list_or_empty (arr xs) = ok (to_list xs)
list_or_empty (obj d) = ok (map str (keys d))

-- `dict(v or {})`; a list of pairs, which `dict` takes too, is outside the model.
abbrev pub dict_or_empty : Value → Result Fields
dict_or_empty null = ok end
dict_or_empty (bool b) = if b then err builtin_error else ok end
dict_or_empty (int n) = if eq_ℤ n (pos 0) then ok end else err builtin_error
dict_or_empty (str s) = if s == "" then ok end else err builtin_error
dict_or_empty (arr nil) = ok end
dict_or_empty (arr (cons v xs)) = err builtin_error
dict_or_empty (obj d) = ok d

-- `dict(v) if isinstance(v, dict) else {}`
abbrev pub dict_or_none : Value → Fields
dict_or_none (obj d) = d
dict_or_none _ = end

-- `bool(v)`
abbrev pub truthy : Value → Bool
truthy null = false
truthy (bool b) = b
truthy (int n) = not (eq_ℤ n (pos 0))
truthy (str s) = not (s == "")
truthy (arr nil) = false
truthy (arr (cons v xs)) = true
truthy (obj d) = not (is_empty d)

-- `int(v or 0)` that raises
abbrev pub int_or_raise : Option ℤ → Result ℤ
int_or_raise none = err builtin_error
int_or_raise (some n) = ok n

module _ ⦃py : Python⦄ where
  -- `str(d[key])`: a missing key is a KeyError.
  abbrev pub required : String → Fields → Result String
  required key d = if has key d then ok (to_text (get key d)) else err builtin_error

  -- `str(v or other)`
  abbrev pub text_or : String → Value → String
  text_or other v = if truthy v then to_text v else other
