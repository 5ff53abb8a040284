-- ===== src/Coordinator/Windows/Arc.antt =====
-- The times of the day that a maintenance window covers, as an arc of the clock.
use rexec_op.Base.{
  ℕ, ◌+◌, ◌-◌, ◌⊎◌, ◌<◌, ◌≤◌, ◌≡◌, true, ◌&&◌, ◌||◌, leb, arith, Bool-cases, inl, inr,
}
use rexec_op.Coordinator.Maintenance.{covers}

-- The microseconds of a day.
abbrev pub day : ℕ
day = 86400000000

-- Going forward from the start by at most the length of the window, past midnight where needed, leads
-- to the time.
pub record IsOnArc (start end t : ℕ) : Type 0 where
  pub length : ℕ
  pub after : ℕ
  pub short : length < day
  pub inside : after ≤ length
  pub reached : (start + after ≡ t) ⊎ (start + after ≡ t + day)
  pub closed : (start + length ≡ end) ⊎ (start + length ≡ end + day)

pub arc_covers :
    (start end t : ℕ)
    → start < day
    → end < day
    → t < day
    → IsOnArc start end t
    → covers start end t ≡ true
arc_covers start end t s e l a =
    let length = a.length in
    let after = a.after in
    let short : length < day = a.short in
    let inside : after ≤ length = a.inside in
    let reached : (start + after ≡ t) ⊎ (start + after ≡ t + day) = a.reached in
    let closed : (start + length ≡ end) ⊎ (start + length ≡ end + day) = a.closed in ground arith

pub covers_arc :
    (start end t : ℕ)
    → start < day
    → end < day
    → t < day
    → covers start end t ≡ true
    → IsOnArc start end t
covers_arc start end t s e l h = elim (Bool-cases (leb start end)) [
  | inl up ↦
      let both : (leb start t && leb t end) ≡ true = rw up at h in
      record {
        length = end - start;
        after = t - start;
        short = ground arith;
        inside = ground arith;
        reached = inl (ground arith);
        closed = inl (ground arith);
      }
  | inr down ↦
      let one : (leb start t || leb t end) ≡ true = rw down at h in
      elim (Bool-cases (leb start t)) [
        | inl late ↦ record {
          length = (day - start) + end;
          after = t - start;
          short = ground arith;
          inside = ground arith;
          reached = inl (ground arith);
          closed = inr (ground arith);
        }
        | inr early ↦
            let before : leb t end ≡ true = rw early at one in
            record {
              length = (day - start) + end;
              after = (day - start) + t;
              short = ground arith;
              inside = ground arith;
              reached = inr (ground arith);
              closed = inr (ground arith);
            }
      ]
]
