-- ===== src/Coordinator/Maintenance.antt =====
-- runtime_ops/maintenance.py: whether an instant lies in one of the maintenance windows of a policy.
use Prim.Native.Char.{code}
use Prim.Native.String
use rexec_op.Base.{
  ℕ, suc, ◌+◌, ◌*◌, String, Bool, true, false, ◌&&◌, ◌||◌, Option, none, some, List, [], ◌∷◌, ◌==◌,
  nat_eq, leb, ltb, if◌then◌else◌, Result, ok, err, builtin_error, ◌>>=◌,
}
use rexec_op.Base.Int.{ℤ, pos}
use rexec_op.Json.{Value, int, obj, get}
use rexec_op.Json.Python.{Python, text}
use rexec_op.Json.Coerce.{int_or_raise}

-- What `current.astimezone(ZoneInfo(name)).time()` is at the instant of the check, for each name:
-- the microseconds since midnight there. `none` is a zone that does not exist.
abbrev pub LocalTime : Type 0
LocalTime = String → Option ℕ

abbrev pub push_front : String → String × String → String × String
push_front c (before, after) = (String.◌++◌ c before, after)

abbrev pub split_rest : String → Option (String × String) → Option (String × String)
split_rest c none = none
split_rest c (some parts) = some (push_front c parts)

-- `value.split(":", 1)` into two parts; `none` where there is no colon.
abbrev pub split_colon : String → Option (String × String)
split_colon String.[] = none
split_colon (String.◌∷◌ c s) =
    if nat_eq (code c) 58 then some ("", s) else split_rest (String.◌∷◌ c String.[]) (split_colon s)

abbrev pub or_value_error {ℓ} : {A : Type ℓ} → Option A → Result A
or_value_error none = err builtin_error
or_value_error (some a) = ok a

-- `datetime.time(hour, minute)` as microseconds
abbrev pub time_of_day : ℤ → ℤ → Result ℕ
time_of_day (pos hour) (pos minute) =
    if ltb hour 24 && ltb minute 60 then ok ((hour * 60 + minute) * 60000000) else err builtin_error
time_of_day _ _ = err builtin_error

-- The window from `start` to `end`, which may lead past midnight.
abbrev pub covers : ℕ → ℕ → ℕ → Bool
covers start end t = if leb start end then leb start t && leb t end else (leb start t || leb t end)

abbrev pub zone_name : String → String
zone_name name = if name == "" then "UTC" else name

module _ ⦃py : Python⦄ where
  -- `_parse_hhmm`
  unfoldable pub parse_hhmm : String → Result ℕ
  parse_hhmm value = do
    (hour, minute) ← or_value_error (split_colon value)
    h ← int_or_raise (py.parse_int hour)
    m ← int_or_raise (py.parse_int minute)
    time_of_day h m

  -- One round of the loop: whether this window is open.
  unfoldable pub window_open : LocalTime → Value → Result Bool
  window_open local (obj window) =
      let zone = zone_name (text (get "timezone" window)) in
      let start_raw = text (get "start" window) in
      let end_raw = text (get "end" window) in
      if start_raw == "" || end_raw == "" then ok false else (do
        t ← or_value_error (local zone)
        start ← parse_hhmm start_raw
        end ← parse_hhmm end_raw
        ok (covers start end t))
  window_open local _ = err builtin_error

  abbrev pub open_reason : ℕ → String
  open_reason index = String.◌++◌ "window_" (String.◌++◌ (py.show (int (pos index))) "_open")

  -- The loop from the window with an index.
  unfoldable pub first_open : LocalTime → ℕ → List Value → Result (Bool × String)
  first_open local index [] = ok (false, "outside_maintenance_window")
  first_open local index (window ∷ windows) = do
    is_open ← window_open local window
    let later = first_open local (suc index) windows
    if is_open then ok (true, open_reason index) else later

  unfoldable pub maintenance_window_allows : LocalTime → List Value → Result (Bool × String)
  maintenance_window_allows local [] = ok (true, "no_maintenance_windows_configured")
  maintenance_window_allows local (window ∷ windows) = first_open local 0 (window ∷ windows)
