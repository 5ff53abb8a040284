-- ===== src/Lease/Fencing.antt =====
-- Fencing: what the epochs of successive grants are.
use rexec_op.Base.{ℕ, String, Option, none, some, List, [], ◌∷◌, ok, err, Result}
use rexec_op.Base.Int.{ℤ, ◌<ℤ◌}
use rexec_op.Json.Python.{Python}
use rexec_op.Lease.{LeaseDir, acquire, renew, release, clear_if_stale, next_epoch}

-- A call of one of the methods that write, with the clocks and identifiers that it draws.
pub data Call : Type 0 where
  acquire_call : String → Option String → String → String → ℕ → ℕ → ℕ → Call
  renew_call : String → ℤ → String → ℕ → ℕ → ℕ → Call
  release_call : String → ℤ → String → Call
  clear_call : ℕ → Call

module _ ⦃py : Python⦄ where
  -- The epoch that a grant was given.
  abbrev granted : Result ℤ → Option ℤ
  granted (ok n) = some n
  granted (err e) = none

  pub grant_of : Call → LeaseDir → Option ℤ
  grant_of (acquire_call w p fp ft now ttl m) dir = granted (next_epoch w now ttl dir)
  grant_of _ dir = none

  pub after : Call → LeaseDir → LeaseDir
  after (acquire_call w p fp ft now ttl m) dir = (acquire w p fp ft now ttl m dir).1
  after (renew_call t e p now ttl m) dir = (renew t e p now ttl m dir).1
  after (release_call t e p) dir = (release t e p dir).1
  after (clear_call now) dir = (clear_if_stale now dir).1

  abbrev cons_some : Option ℤ → List ℤ → List ℤ
  cons_some none gs = gs
  cons_some (some g) gs = g ∷ gs

  -- The epochs granted along a sequence of calls by any processes.
  pub grants : List Call → LeaseDir → List ℤ
  grants [] dir = []
  grants (c ∷ cs) dir = cons_some (grant_of c dir) (grants cs (after c dir))

  -- Each number is above the one before it, the first above `n`.
  abbrev pub Ascends : ℤ → List ℤ → Type 0
  Ascends n [] = Unit
  Ascends n (g ∷ gs) = (n <ℤ g) × Ascends g gs
