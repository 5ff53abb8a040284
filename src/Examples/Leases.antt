-- ===== src/Examples/Leases.antt =====
-- Two workers and one lease.
use mathlib.Core.Bool.{false≢true}
use rexec_op.Base.{◌≡◌, refl, some, ok, err, lease_lost, ◌==◌, true, ap}
use rexec_op.Base.Int.{pos}
use rexec_op.Json.{Fields, missing, readable, obj, present}
use rexec_op.Lease.{
  LeaseDir, EpochFile, acquire, renew, release, validate, new_lease, next_epoch, read_unlocked,
  is_stale, is_held, require_owner, epoch_above,
}
use rexec_op.Lease.Ownership.{acquire-validate, superseded}
use rexec_op.Json.Python.{parse_time}
use rexec_op.Examples.Toy.{toy, toy_iso, toy_from_iso, read_row, row}

abbrev fresh : LeaseDir
fresh = record { lease = missing; epoch = EpochFile.absent }

abbrev first_lease : Fields
first_lease = new_lease "w1" "p1" (pos 1) "t1" 5 10 0

abbrev held : LeaseDir
held = record { lease = readable (obj first_lease); epoch = EpochFile.number (pos 1) }

first_acquired : acquire "w1" (some "p1") "f" "t1" 5 10 0 fresh ≡ (ok first_lease, held)
unfolding acquire next_epoch read_unlocked epoch_above toy toy_iso
first_acquired = refl

first_ok : (acquire "w1" (some "p1") "f" "t1" 5 10 0 fresh).0 ≡ ok first_lease
first_ok = ap (λ r. r.0) first_acquired

acquire-validate_example :
    validate first_lease 9 (acquire "w1" (some "p1") "f" "t1" 5 10 0 fresh).1 ≡ ok tt
acquire-validate_example = acquire-validate "w1" (some "p1") "f" "t1" 5 10 0 9 fresh first_ok

superseded_example :
    let taken = (acquire "w1" (some "p1") "f" "t1" 5 10 0 fresh).1 in
    (renew "t0" (pos 0) "p0" 6 10 0 taken
      ≡ (err (lease_lost "worker lease ownership conflict"), taken))
    × (release "t0" (pos 0) "p0" taken
        ≡ (err (lease_lost "worker lease ownership conflict"), taken))
superseded_example =
    superseded "w1" (some "p1") "f" "t1" 5 10 0 fresh "t0" "p0" (pos 0) 6 10 0 first_ok
      (λ same. absurd (false≢true (ap (λ s. s == "t1") same)))

held_found : read_unlocked held.lease ≡ ok (some first_lease)
unfolding read_unlocked
held_found = refl

held_now : is_held (present (some first_lease)) 9 ≡ true
unfolding is_stale parse_time toy toy_iso toy_from_iso read_row row
held_now = refl

released : (release "t1" (pos 1) "p1" held).0 ≡ ok true
unfolding release require_owner read_unlocked
released = refl
