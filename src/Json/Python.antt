-- ===== src/Json/Python.antt =====
-- The functions of Python's standard library that the modelled code calls and this development
-- leaves open, with the documented facts that it relies on.
use Prim.Native.Char.{Char, code}
use Prim.Native.String
use rexec_op.Base.{
  ℕ, ◌≤◌, String, ◌≡◌, Bool, true, false, ◌&&◌, ◌||◌, Option, none, some, leb, nat_eq, ◌==◌,
  if◌then◌else◌,
}
use rexec_op.Base.Int.{ℤ, pos, negsuc}
use rexec_op.Json.{Value, null, bool, int, str, arr, obj, nil, cons, end, field, bit}

-- `str.isspace`, on one code point.
abbrev pub is_space : ℕ → Bool
is_space c =
    (leb 9 c && leb c 13)
    || (leb 28 c && leb c 32)
    || nat_eq c 133
    || nat_eq c 160
    || nat_eq c 5760
    || (leb 8192 c && leb c 8202)
    || nat_eq c 8232
    || nat_eq c 8233
    || nat_eq c 8239
    || nat_eq c 8287
    || nat_eq c 12288

-- `s.strip()`: the leading white space, then the trailing one.
abbrev pub trim_start : String → String
trim_start String.[] = String.[]
trim_start (String.◌∷◌ c s) = if is_space (code c) then trim_start s else String.◌∷◌ c s

abbrev pub push_char : Char → String → String
push_char c String.[] = if is_space (code c) then String.[] else String.◌∷◌ c String.[]
push_char c (String.◌∷◌ d s) = String.◌∷◌ c (String.◌∷◌ d s)

abbrev pub trim_end : String → String
trim_end String.[] = String.[]
trim_end (String.◌∷◌ c s) = push_char c (trim_end s)

abbrev pub strip : String → String
strip s = trim_end (trim_start s)

-- `text[:-1] + "+00:00" if text.endswith("Z") else text`
abbrev pub expand_zulu : String → String
expand_zulu String.[] = String.[]
expand_zulu (String.◌∷◌ c String.[]) =
    if nat_eq (code c) 90 then "+00:00" else String.◌∷◌ c String.[]
expand_zulu (String.◌∷◌ c (String.◌∷◌ d s)) = String.◌∷◌ c (expand_zulu (String.◌∷◌ d s))

abbrev pub is_ascii : String → Bool
is_ascii String.[] = true
is_ascii (String.◌∷◌ c s) = leb (code c) 127 && is_ascii s

-- An instant is a number of microseconds since the first one of year 1, in UTC.
pub record Python : Type 0 where
  -- `datetime.max`
  pub max_instant : ℕ
  -- `t.isoformat()` of an instant in UTC
  pub iso : ℕ → String
  -- `datetime.fromisoformat(s)`: whether the text names a zone, and the instant, a text without a
  -- zone read as UTC; `none` is ValueError
  pub from_iso : String → Option (Bool × ℕ)
  pub strip-iso : (t : ℕ) → t ≤ max_instant → strip (iso t) ≡ iso t
  pub expand_zulu-iso : (t : ℕ) → t ≤ max_instant → expand_zulu (iso t) ≡ iso t
  pub iso_nonempty : (t : ℕ) → t ≤ max_instant → (iso t == "") ≡ false
  pub iso_short : (t : ℕ) → t ≤ max_instant → leb (String.count (iso t)) 64 ≡ true
  pub from_iso-iso : (t : ℕ) → t ≤ max_instant → from_iso (iso t) ≡ some (true, t)
  -- `int(s)` of a text; `none` is ValueError
  pub parse_int : String → Option ℤ
  -- `str(v)` of a value that is no text
  pub show : Value → String
  -- `s.lower()`
  pub lower : String → String
  -- `json.dumps` with sorted keys and compact separators, and `hashlib.sha256(...).hexdigest()`
  pub dump : Value → String
  pub sha256 : String → String
  pub sha256_ascii : (s : String) → is_ascii (sha256 s) ≡ true
  -- `datetime.fromisoformat(s).isoformat()`, which keeps the zone, for a text that it can read
  pub same_iso : String → String
  pub from_iso-same_iso :
      (s : String) {t : Bool × ℕ} → from_iso s ≡ some t → from_iso (same_iso s) ≡ some t
  -- `unicodedata.category(c).startswith("C")`, on one code point
  pub is_control : ℕ → Bool

module _ ⦃py : Python⦄ where
  -- `str(v or "")`
  abbrev pub text : Value → String
  text null = ""
  text (bool false) = ""
  text (bool true) = py.show (bool true)
  text (int (pos n)) = if nat_eq n 0 then "" else py.show (int (pos n))
  text (int (negsuc n)) = py.show (int (negsuc n))
  text (str s) = s
  text (arr nil) = ""
  text (arr (cons v xs)) = py.show (arr (cons v xs))
  text (obj end) = ""
  text (obj (field k v d)) = py.show (obj (field k v d))

  -- `str(v)`
  abbrev pub to_text : Value → String
  to_text (str s) = s
  to_text v = py.show v

  -- `int(v or 0)`; `none` is ValueError or TypeError
  abbrev pub as_int : Value → Option ℤ
  as_int null = some (pos 0)
  as_int (bool b) = some (bit b)
  as_int (int n) = some n
  as_int (str s) = if s == "" then some (pos 0) else py.parse_int s
  as_int (arr nil) = some (pos 0)
  as_int (arr (cons v xs)) = none
  as_int (obj end) = some (pos 0)
  as_int (obj (field k v d)) = none

  -- `_parse_time` of runtime_ops/lease.py and runtime_ops/queue.py
  abbrev instant : Option (Bool × ℕ) → Option ℕ
  instant none = none
  instant (some (zone, t)) = some t

  unfoldable pub parse_time : String → Option ℕ
  parse_time s = let t = strip s in if t == "" then none else instant (py.from_iso (expand_zulu t))

  pub parse_time-iso : (t : ℕ) → t ≤ py.max_instant → parse_time (py.iso t) ≡ some t
  unfolding parse_time
  parse_time-iso t h =
      rw (py.strip-iso t h, py.iso_nonempty t h, py.expand_zulu-iso t h, py.from_iso-iso t h)
