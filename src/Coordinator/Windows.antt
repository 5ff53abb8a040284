-- ===== src/Coordinator/Windows.antt =====
-- When the maintenance windows let a mutating operation start.
mod Arc
mod Times
use Prim.Native.Char.{Char, code}
use Prim.Native.String
use Prim.Native.String.append
use rexec_op.Base.{
  ℕ, suc, ◌+◌, ◌*◌, ◌-◌, ◌⊎◌, ◌<◌, ◌≤◌, String, ◌≡◌, refl, ap, sym, subst, ◌∙◌, ◌↔◌, Bool, true,
  false, ◌&&◌, ◌||◌, not, List, [], ◌∷◌, Option, none, some, Result, ok, err, err≢ok, ok-injective,
  builtin_error, ◌==◌, nat_eq, leb, ltb, arith, ==_ne, Bool-cases, inl, inr, >>=-eq-ok, raise_if,
  ◌>>=◌, if◌then◌else◌, validation_error,
}
use rexec_op.Base.Int.{ℤ, pos, negsuc}
use rexec_op.Json.{Value, null, bool, int, str, arr, obj, Fields, cons, Items, get, to_list}
use rexec_op.Json.Python.{Python, text}
use rexec_op.Json.Coerce.{int_or_raise}
use rexec_op.Operation.Model.{Operation}
use rexec_op.Posture.{is_mutating_mode}
use rexec_op.Coordinator.Maintenance.{
  LocalTime, window_open, first_open, open_reason, maintenance_window_allows, covers, zone_name,
  parse_hhmm, split_colon, split_rest, push_front, time_of_day, or_value_error,
}
use rexec_op.Coordinator.Assessment.{runtime_policy, check_maintenance_window}
use rexec_op.Coordinator.Windows.Arc.{day, IsOnArc, arc_covers, covers_arc}
use rexec_op.Coordinator.Windows.Times.{
  IsTime, from_option, parse_hhmm-IsTime, IsTime-parse_hhmm, IsTime-day, joined-nonempty,
}

module _ ⦃py : Python⦄ (local : LocalTime) where
  -- The window is an object with a start and an end, and the local time in its zone lies between them.
  pub record IsOpen (window : Value) : Type 0 where
    pub fields : Fields
    pub is_object : window ≡ obj fields
    pub time : ℕ
    pub here : local (zone_name (text (get "timezone" fields))) ≡ some time
    pub start : ℕ
    pub end : ℕ
    pub starts : IsTime (text (get "start" fields)) start
    pub ends : IsTime (text (get "end" fields)) end
    pub between : IsOnArc start end time

  -- A clock's times are below a day.
  IsClock : Type 0
  IsClock = (zone : String) (time : ℕ) → local zone ≡ some time → time < day

  IsOpen-window_open :
      (clock : IsClock) {window : Value} → IsOpen window → window_open local window ≡ ok true
  unfolding window_open IsClock
  IsOpen-window_open clock {window} w =
      let d = w.fields in
      let inside =
        arc_covers w.start w.end w.time (IsTime-day w.starts) (IsTime-day w.ends)
          (clock (zone_name (text (get "timezone" d))) w.time w.here) w.between in
      rw
        (
          w.is_object,
          joined-nonempty w.starts.split,
          joined-nonempty w.ends.split,
          w.here,
          IsTime-parse_hhmm (text (get "start" d)) w.starts,
          IsTime-parse_hhmm (text (get "end" d)) w.ends,
          inside,
        )
        refl

  window_open-IsOpen :
      (clock : IsClock) (window : Value) → window_open local window ≡ ok true → IsOpen window
  unfolding window_open IsClock
  window_open-IsOpen clock (obj d) h =
      elim (Bool-cases (text (get "start" d) == "" || text (get "end" d) == "")) [
        | inl missing ↦ let never : ok false ≡ ok true = rw missing at h in cc
        | inr present ↦
            let (time, here, h₁) =
              >>=-eq-ok (or_value_error (local (zone_name (text (get "timezone" d))))) _
                (rw present at h) in
            let (start, starts, h₂) = >>=-eq-ok (parse_hhmm (text (get "start" d))) _ h₁ in
            let (end, ends, h₃) = >>=-eq-ok (parse_hhmm (text (get "end" d))) _ h₂ in
            let found = from_option (local (zone_name (text (get "timezone" d)))) here in
            let s = parse_hhmm-IsTime (text (get "start" d)) starts in
            let e = parse_hhmm-IsTime (text (get "end" d)) ends in
            record {
              fields = d;
              is_object = refl;
              time = time;
              here = found;
              start = start;
              end = end;
              starts = s;
              ends = e;
              between =
                  covers_arc start end time (IsTime-day s) (IsTime-day e)
                    (clock (zone_name (text (get "timezone" d))) time found) (ok-injective h₃);
            }
      ]
  window_open-IsOpen clock null h = absurd (err≢ok h)
  window_open-IsOpen clock (bool b) h = absurd (err≢ok h)
  window_open-IsOpen clock (int n) h = absurd (err≢ok h)
  window_open-IsOpen clock (str s) h = absurd (err≢ok h)
  window_open-IsOpen clock (arr xs) h = absurd (err≢ok h)

  -- One of the windows is open, and those before it can be read.
  pub data HasOpen : List Value → Type 0 where
    first : {window : Value} {windows : List Value} → IsOpen window → HasOpen (window ∷ windows)
    later :
        {window : Value} {windows : List Value} {is_open : Bool}
        → window_open local window ≡ ok is_open
        → HasOpen windows
        → HasOpen (window ∷ windows)

  first_open-HasOpen :
      (clock : IsClock) (index : ℕ) (windows : List Value) {reason : String}
      → first_open local index windows ≡ ok (true, reason)
      → HasOpen windows
  unfolding first_open IsClock
  first_open-HasOpen clock index [] h = cc
  first_open-HasOpen clock index (window ∷ windows) h =
      let (is_open, found, h₁) = >>=-eq-ok (window_open local window) _ h in
      let later_open = first_open-HasOpen clock (suc index) windows in
      elim (Bool-cases is_open) [
        | inl opened ↦ first (window_open-IsOpen clock window (found ∙ ap (λ b. ok b) opened))
        | inr closed ↦ later found (later_open (rw closed at h₁))
      ]

  HasOpen-first_open :
      (clock : IsClock) (index : ℕ) {windows : List Value}
      → HasOpen windows
      → (reason : String) × (first_open local index windows ≡ ok (true, reason))
  unfolding first_open IsClock
  HasOpen-first_open clock index (first opened) =
      (open_reason index, rw (IsOpen-window_open clock opened) refl)
  HasOpen-first_open clock index (later {is_open = false} readable rest) =
      let (reason, found) = HasOpen-first_open clock (suc index) rest in (reason, rw readable found)
  HasOpen-first_open clock index (later {is_open = true} readable rest) =
      (open_reason index, rw readable refl)

  passed :
      (answer : Result (Bool × String))
      → (answer >>= λ a.
          raise_if (not a.0) (validation_error "apply blocked outside maintenance window ("))
        ≡ ok tt
      → (reason : String) × (answer ≡ ok (true, reason))
  passed (ok (true, reason)) h = (reason, refl)
  passed (ok (false, reason)) h = cc
  passed (err e) h = cc

  -- A mutating operation whose policy lists maintenance windows passes the check exactly when one of them
  -- is open and those listed before it can be read. A window is open where its start and its end
  -- are an hour below 24, a colon and a minute below 60, and going forward from the start by no more than
  -- the window's length, past midnight where needed, leads to the local time in its zone. Local times are
  -- below a day.
  pub check_maintenance_window_iff :
      (o : Operation) (window : Value) (windows : Items)
      → ((zone : String) (time : ℕ) → local zone ≡ some time → time < day)
      → is_mutating_mode o.mode ≡ true
      → get "maintenance_windows" (runtime_policy o) ≡ arr (cons window windows)
      → (check_maintenance_window local o ≡ ok tt) ↔ HasOpen (window ∷ to_list windows)
  unfolding check_maintenance_window maintenance_window_allows IsClock
  check_maintenance_window_iff o window windows clock mutates listed = (
    λ h.
        let (reason, found) =
          passed (first_open local 0 (window ∷ to_list windows)) (rw (mutates, listed) at h) in
        first_open-HasOpen clock 0 (window ∷ to_list windows) found,
    λ h. let (reason, found) = HasOpen-first_open clock 0 h in rw (mutates, listed, found) refl,
  )
