-- ===== src/Examples/Toy.antt =====
-- A small Python library for the examples: an instant is written in unary, as a row of letters T.
use Prim.Native.Char.{Char}
use Prim.Native.String
use Prim.Native.String.{count}
use Prim.Native.String.count
use Prim.Native.String.compare
use rexec_op.Base.{
  ℕ, zero, suc, ◌-◌, ◌≤◌, String, ◌≡◌, refl, Bool, true, false, Option, none, some, arith, ◌==◌,
  leb, if◌then◌else◌, ap, Bool-cases, inl, inr,
}
use rexec_op.Base.Int.{ℤ, pos}
use rexec_op.Json.{Value, bool}
use rexec_op.Json.Python.{Python, strip, trim_end, push_char, expand_zulu, is_ascii}

abbrev letter : Char
letter = "T"

-- `n + 1` letters
unfoldable pub row : ℕ → String
row zero = String.◌∷◌ letter String.[]
row (suc n) = String.◌∷◌ letter (row n)

pub trim_end-row : (n : ℕ) → trim_end (row n) ≡ row n
unfolding row
trim_end-row zero = refl
trim_end-row (suc zero) = refl
trim_end-row (suc (suc n)) = ap (push_char letter) (trim_end-row (suc n))

pub strip-row : (n : ℕ) → strip (row n) ≡ row n
unfolding row
strip-row zero = refl
strip-row (suc n) = trim_end-row (suc n)

pub expand_zulu-row : (n : ℕ) → expand_zulu (row n) ≡ row n
unfolding row
expand_zulu-row zero = refl
expand_zulu-row (suc zero) = refl
expand_zulu-row (suc (suc n)) = ap (String.◌∷◌ letter) (expand_zulu-row (suc n))

pub row_nonempty : (n : ℕ) → (row n == "") ≡ false
unfolding row
row_nonempty zero = refl
row_nonempty (suc n) = rw Prim.Native.String.compare.cons-nil

pub count-row : (n : ℕ) → count (row n) ≡ suc n
unfolding row
count-row zero = rw (Prim.Native.String.count.cons, Prim.Native.String.count.nil)
count-row (suc n) = rw (Prim.Native.String.count.cons, count-row n)

unfoldable pub read_row : String → Option (Bool × ℕ)
read_row s = if s == "" then none else some (true, count s - 1)

pub read_row-row : (n : ℕ) → read_row (row n) ≡ some (true, n)
unfolding read_row
read_row-row n = let back : suc n - 1 ≡ n = omega arith in rw (row_nonempty n, count-row n, back)

pub row_short : (n : ℕ) → n ≤ 60 → leb (count (row n)) 64 ≡ true
row_short n h = rw (count-row n) (ground arith)

pub show_value : Value → String
show_value (bool b) = "True"
show_value _ = "?"

unfoldable pub toy_iso : ℕ → String
unfolding row
toy_iso n = row n

unfoldable pub toy_from_iso : String → Option (Bool × ℕ)
unfolding read_row
toy_from_iso s = read_row s

abbrev pub ascii_only : String → String
ascii_only s = if is_ascii s then s else ""

pub ascii_only-is_ascii : (s : String) → is_ascii (ascii_only s) ≡ true
ascii_only-is_ascii s = elim (Bool-cases (is_ascii s)) [
  | inl plain ↦ rw plain plain
  | inr other ↦ rw other refl
]

-- The texts of a few numbers.
abbrev pub small_number : String → Option ℤ
small_number s =
    if s == "02"
    then some (pos 2)
    else if s == "22"
    then some (pos 22)
    else if s == "30"
    then some (pos 30)
    else none

instance unfoldable pub toy : Python
unfolding toy_iso toy_from_iso
toy = record {
  max_instant = 60;
  iso = toy_iso;
  from_iso = toy_from_iso;
  strip-iso = λ t _. strip-row t;
  expand_zulu-iso = λ t _. expand_zulu-row t;
  iso_nonempty = λ t _. row_nonempty t;
  iso_short = row_short;
  from_iso-iso = λ t _. read_row-row t;
  parse_int = small_number;
  show = show_value;
  lower = λ s. s;
  dump = λ _. "{}";
  sha256 = ascii_only;
  sha256_ascii = ascii_only-is_ascii;
  same_iso = λ s. s;
  from_iso-same_iso = λ s h. h;
  is_control = λ _. false;
}
