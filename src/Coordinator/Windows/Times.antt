-- ===== src/Coordinator/Windows/Times.antt =====
-- What `_parse_hhmm` in runtime_ops/maintenance.py reads.
use Prim.Native.Char.{Char, code}
use Prim.Native.String
use Prim.Native.String.append
use rexec_op.Base.{
  ℕ, ◌+◌, ◌*◌, ◌<◌, String, ◌≡◌, refl, ap, sym, ◌∙◌, true, false, ◌&&◌, Option, none, some, ok,
  err≢ok, ok-injective, ◌==◌, nat_eq, ltb, arith, ==_ne, Bool-cases, inl, inr, >>=-eq-ok,
}
use rexec_op.Base.Int.{ℤ, pos, negsuc}
use rexec_op.Json.Python.{Python}
use rexec_op.Json.Coerce.{int_or_raise}
use rexec_op.Coordinator.Maintenance.{
  parse_hhmm, split_colon, split_rest, push_front, time_of_day, or_value_error,
}
use rexec_op.Coordinator.Windows.Arc.{day}

-- The text is an hour without a colon, a colon and a minute.
pub record IsSplit (value hour minute : String) : Type 0 where
  pub colon : Char
  pub is_colon : code colon ≡ 58
  pub joined : value ≡ String.◌++◌ hour (String.◌∷◌ colon minute)
  pub plain : split_colon hour ≡ none

nothing_before : (t : String) → String.◌++◌ "" t ≡ t
nothing_before t = λ i. append.nil t i

one_before :
    (c : Char) (s t : String) → String.◌++◌ (String.◌∷◌ c s) t ≡ String.◌∷◌ c (String.◌++◌ s t)
one_before c s t = λ i. append.cons c s t i

pushed : (c : Char) (s : String) → String.◌++◌ (String.◌∷◌ c String.[]) s ≡ String.◌∷◌ c s
pushed c s = one_before c String.[] s ∙ ap (λ z. String.◌∷◌ c z) (nothing_before s)

split_rest-some :
    (c : String) (parts : Option (String × String)) {p : String × String}
    → split_rest c parts ≡ some p
    → (q : String × String) × (parts ≡ some q) × (p ≡ push_front c q)
split_rest-some c none h = cc
split_rest-some c (some q) h = (q, refl, cc)

split_rest-none :
    (c : String) (parts : Option (String × String)) → split_rest c parts ≡ none → parts ≡ none
split_rest-none c none h = refl
split_rest-none c (some q) h = cc

is_58 : (n : ℕ) → nat_eq n 58 ≡ true → n ≡ 58
is_58 n h = ground arith

split_colon-IsSplit :
    (value hour minute : String)
    → split_colon value ≡ some (hour, minute)
    → IsSplit value hour minute
split_colon-IsSplit String.[] hour minute h = cc
split_colon-IsSplit (String.◌∷◌ c s) hour minute h =
    let later = split_colon-IsSplit s in
    elim (Bool-cases (nat_eq (code c) 58)) [
      | inl found ↦
          let same : ◌≡◌ {A = Option (String × String)} (some ("", s)) (some (hour, minute)) =
            rw found at h in
          let nothing : hour ≡ "" = cc in
          let rest : minute ≡ s = cc in
          record {
            colon = c;
            is_colon = is_58 (code c) found;
            joined = rw (nothing, rest, nothing_before (String.◌∷◌ c s)) refl;
            plain = rw nothing refl;
          }
      | inr other ↦
          let same : split_rest (String.◌∷◌ c String.[]) (split_colon s) ≡ some (hour, minute) =
            rw other at h in
          let (q, parts, front) = split_rest-some (String.◌∷◌ c String.[]) (split_colon s) same in
          let i = later q.0 q.1 parts in
          let before : hour ≡ String.◌∷◌ c q.0 = ap (λ p. p.0) front ∙ pushed c q.0 in
          let rest : minute ≡ q.1 = ap (λ p. p.1) front in
          record {
            colon = i.colon;
            is_colon = i.is_colon;
            joined =
                rw (before, rest, one_before c q.0 (String.◌∷◌ i.colon q.1))
                  (ap (λ z. String.◌∷◌ c z) i.joined);
            plain = rw (before, other, i.plain);
          }
    ]

split_at :
    (hour minute : String) (colon : Char)
    → code colon ≡ 58
    → split_colon hour ≡ none
    → split_colon (String.◌++◌ hour (String.◌∷◌ colon minute)) ≡ some (hour, minute)
split_at String.[] minute colon h plain = rw (nothing_before (String.◌∷◌ colon minute), h) refl
split_at (String.◌∷◌ c s) minute colon h plain =
    let later = split_at s minute colon h in
    elim (Bool-cases (nat_eq (code c) 58)) [
      | inl found ↦
          let never : ◌≡◌ {A = Option (String × String)} (some ("", s)) none = rw found at plain in
          cc
      | inr other ↦
          rw
            (
              one_before c s (String.◌∷◌ colon minute),
              other,
              later (split_rest-none (String.◌∷◌ c String.[]) (split_colon s) (rw other at plain)),
            )
            (ap (λ z. some (z, minute)) (pushed c s))
    ]

pub IsSplit-split_colon :
    (value hour minute : String)
    → IsSplit value hour minute
    → split_colon value ≡ some (hour, minute)
IsSplit-split_colon value hour minute h =
    rw h.joined (split_at hour minute h.colon h.is_colon h.plain)

module _ ⦃py : Python⦄ where
  -- The text is an hour below 24, a colon and a minute below 60; the time in microseconds.
  pub record IsTime (value : String) (time : ℕ) : Type 0 where
    pub hour : String
    pub minute : String
    pub h : ℕ
    pub m : ℕ
    pub split : IsSplit value hour minute
    pub hour_read : py.parse_int hour ≡ some (pos h)
    pub minute_read : py.parse_int minute ≡ some (pos m)
    pub hour_bound : h < 24
    pub minute_bound : m < 60
    pub micros : time ≡ (h * 60 + m) * 60000000

  pub from_option {ℓ} : {A : Type ℓ} (r : Option A) {a : A} → or_value_error r ≡ ok a → r ≡ some a
  from_option none h = absurd (err≢ok h)
  from_option (some b) h = ap (λ x. some x) (ok-injective h)

  from_int : (r : Option ℤ) {a : ℤ} → int_or_raise r ≡ ok a → r ≡ some a
  from_int none h = absurd (err≢ok h)
  from_int (some b) h = ap (λ x. some x) (ok-injective h)

  time_of_day-ok :
      (a b : ℤ) {time : ℕ}
      → time_of_day a b ≡ ok time
      → (h : ℕ) × (m : ℕ) × (a ≡ pos h)
        × (b ≡ pos m)
        × (h < 24)
        × (m < 60)
        × (time ≡ (h * 60 + m) * 60000000)
  time_of_day-ok (pos h) (pos m) e = elim (Bool-cases (ltb h 24 && ltb m 60)) [
    | inl fits ↦ (h, m, refl, refl, ground arith, ground arith, sym (ok-injective (rw fits at e)))
    | inr over ↦ absurd (err≢ok (rw over at e))
  ]
  time_of_day-ok (pos h) (negsuc m) e = absurd (err≢ok e)
  time_of_day-ok (negsuc h) b e = absurd (err≢ok e)

  pub parse_hhmm-IsTime :
      (value : String) {time : ℕ} → parse_hhmm value ≡ ok time → IsTime value time
  unfolding parse_hhmm
  parse_hhmm-IsTime value e =
      let (parts, split, e₁) = >>=-eq-ok (or_value_error (split_colon value)) _ e in
      let (a, hour_read, e₂) = >>=-eq-ok (int_or_raise (py.parse_int parts.0)) _ e₁ in
      let (b, minute_read, e₃) = >>=-eq-ok (int_or_raise (py.parse_int parts.1)) _ e₂ in
      let (h, m, is_h, is_m, h_bound, m_bound, time) = time_of_day-ok a b e₃ in
      record {
        hour = parts.0;
        minute = parts.1;
        h = h;
        m = m;
        split = split_colon-IsSplit value parts.0 parts.1 (from_option (split_colon value) split);
        hour_read = from_int (py.parse_int parts.0) hour_read ∙ ap (λ x. some x) is_h;
        minute_read = from_int (py.parse_int parts.1) minute_read ∙ ap (λ x. some x) is_m;
        hour_bound = h_bound;
        minute_bound = m_bound;
        micros = time;
      }

  pub IsTime-parse_hhmm :
      (value : String) {time : ℕ} → IsTime value time → parse_hhmm value ≡ ok time
  unfolding parse_hhmm
  IsTime-parse_hhmm value t =
      let h_bound : ltb t.h 24 ≡ true = let b = t.hour_bound in ground arith in
      let m_bound : ltb t.m 60 ≡ true = let b = t.minute_bound in ground arith in
      rw
        (
          IsSplit-split_colon value t.hour t.minute t.split,
          t.hour_read,
          t.minute_read,
          h_bound,
          m_bound,
          t.micros,
        )
        refl

  pub IsTime-day : {value : String} {time : ℕ} → IsTime value time → time < day
  IsTime-day t = let a = t.hour_bound in let b = t.minute_bound in rw t.micros (omega arith)

  pub joined-nonempty :
      {value hour minute : String} → IsSplit value hour minute → (value == "") ≡ false
  joined-nonempty {value} {hour} {minute} i = ==_ne value "" (λ empty.
      let split = IsSplit-split_colon value hour minute i in
      let nothing : ◌≡◌ {A = Option (String × String)} none (some (hour, minute)) =
        rw empty at split in
      cc)
