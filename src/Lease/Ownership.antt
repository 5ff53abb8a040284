-- ===== src/Lease/Ownership.antt =====
-- Who owns the lease: exclusion while it is held, loss when it expires or is taken over.
use rexec_op.Base.{
  ℕ, ◌+◌, ◌≤◌, le→not_ltb, String, ◌≡◌, refl, ◌≢◌, Bool, true, false, Option, arith, ok, err,
  lease_lost, Result, ==_refl, ==_ne, ◌==◌, leb, if◌then◌else◌, sym, ok-injective, err≢ok,
}
use rexec_op.Base.Int.{ℤ, pos, eq_ℤ_refl, suc_ℤ, max_ℤ}
use rexec_op.Json.{Fields, missing, readable, obj, present}
use rexec_op.Json.Python.{Python, parse_time-iso, strip}
use rexec_op.Lease.{
  LeaseDir, EpochFile, read_unlocked, acquire, renew, renewal, release, next_epoch, new_lease,
  validate, is_stale, require_owner, text_or, persisted_epoch, epoch_above, conflict, is_held,
}

module _ ⦃py : Python⦄ where
  -- While a lease that can be read is held, no worker with a name acquires it: the call raises
  -- LeaseLost and writes nothing.
  pub acquire-held :
      (w : String) (p : Option String) (fp ft : String) (now ttl m : ℕ) (dir : LeaseDir)
      {found : Option Fields}
      → (strip w == "") ≡ false
      → read_unlocked dir.lease ≡ ok found
      → is_held (present found) now ≡ true
      → acquire w p fp ft now ttl m dir ≡ (err (lease_lost "worker lease held by"), dir)
  unfolding acquire next_epoch
  acquire-held w p fp ft now ttl m dir h r s = rw (h, r, s)

  next_epoch_in_range :
      (w : String) (now ttl : ℕ) (dir : LeaseDir) {n : ℤ}
      → next_epoch w now ttl dir ≡ ok n
      → now + ttl ≤ py.max_instant
  unfolding next_epoch
  next_epoch_in_range w now ttl dir h = ground arith

  -- The lease that an acquisition leaves behind.
  pub acquire-eq_ok :
      (w : String) (p : Option String) (fp ft : String) (now ttl m : ℕ) (dir : LeaseDir)
      {d : Fields}
      → (acquire w p fp ft now ttl m dir).0 ≡ ok d
      → (n : ℤ) × (d ≡ new_lease w (text_or p fp) n ft now ttl m)
        × ((acquire w p fp ft now ttl m dir).1.lease ≡ readable (obj d))
        × (now + ttl ≤ py.max_instant)
  unfolding acquire
  acquire-eq_ok w p fp ft now ttl m dir {d} h = go (next_epoch w now ttl dir) refl
    where
      go :
          (r : Result ℤ)
          → next_epoch w now ttl dir ≡ r
          → (n : ℤ) × (d ≡ new_lease w (text_or p fp) n ft now ttl m)
            × ((acquire w p fp ft now ttl m dir).1.lease ≡ readable (obj d))
            × (now + ttl ≤ py.max_instant)
      go (ok n) e =
          let same : d ≡ new_lease w (text_or p fp) n ft now ttl m =
            sym (ok-injective (rw (e, acquire) at h)) in
          (n, same, rw (e, same), next_epoch_in_range w now ttl dir e)
      go (err x) e = absurd (err≢ok (rw (e, acquire) at h))

  validate_new :
      (w p : String) (n : ℤ) (t : String) (now ttl m later : ℕ) (dir : LeaseDir)
      → now + ttl ≤ py.max_instant
      → dir.lease ≡ readable (obj (new_lease w p n t now ttl m))
      → validate (new_lease w p n t now ttl m) later dir
        ≡ (if leb (now + ttl) later then err (lease_lost "execution lease expired") else ok tt)
  unfolding validate require_owner read_unlocked is_stale
  validate_new w p n t now ttl m later dir in_range h =
      rw (h, ==_refl t, eq_ℤ_refl n, ==_refl p, parse_time-iso (now + ttl) in_range) (ground arith)

  -- The record that an acquisition returns passes `validate` on the directory that it leaves
  -- exactly until its time to live is over; from then on `validate` raises LeaseLost.
  pub acquire-validate :
      (w : String) (p : Option String) (fp ft : String) (now ttl m later : ℕ) (dir : LeaseDir)
      {d : Fields}
      → (acquire w p fp ft now ttl m dir).0 ≡ ok d
      → validate d later (acquire w p fp ft now ttl m dir).1
        ≡ (if leb (now + ttl) later then err (lease_lost "execution lease expired") else ok tt)
  acquire-validate w p fp ft now ttl m later dir h =
      let (n, same, written, in_range) = acquire-eq_ok w p fp ft now ttl m dir h in
      rw same (
        validate_new w (text_or p fp) n ft now ttl m later (acquire w p fp ft now ttl m dir).1
          in_range (rw (written, same)))

  require_owner_new :
      (w p : String) (n e : ℤ) (t token process : String) (now ttl m : ℕ) (dir : LeaseDir)
      → dir.lease ≡ readable (obj (new_lease w p n t now ttl m))
      → token ≢ t
      → require_owner token e process dir ≡ conflict
  unfolding require_owner read_unlocked
  require_owner_new w p n e t token process now ttl m dir h ne =
      rw (h, ==_ne t token (λ q. ne (sym q)))

  -- After an acquisition under a fresh token, `_require_owner` raises LeaseLost for every holder of
  -- another token, whatever epoch and process it names.
  pub acquire_fences :
      (w : String) (p : Option String) (fp ft : String) (now ttl m : ℕ) (dir : LeaseDir)
      {d : Fields} (token process : String) (e : ℤ)
      → (acquire w p fp ft now ttl m dir).0 ≡ ok d
      → token ≢ ft
      → require_owner token e process (acquire w p fp ft now ttl m dir).1 ≡ conflict
  acquire_fences w p fp ft now ttl m dir token process e h ne =
      let (n, same, written, _) = acquire-eq_ok w p fp ft now ttl m dir h in
      require_owner_new w (text_or p fp) n e ft token process now ttl m
        (acquire w p fp ft now ttl m dir).1 (rw (written, same)) ne

  -- Without ownership `renew` and `release` raise LeaseLost and write nothing.
  not_owner_writes_nothing :
      (token process : String) (e : ℤ) (now ttl m : ℕ) (dir : LeaseDir)
      → require_owner token e process dir ≡ conflict
      → (renew token e process now ttl m dir
          ≡ (err (lease_lost "worker lease ownership conflict"), dir))
        × (release token e process dir ≡ (err (lease_lost "worker lease ownership conflict"), dir))
  unfolding renew renewal release
  not_owner_writes_nothing token process e now ttl m dir h = (rw h, rw h)

  -- After an acquisition under a token that is not its own, a holder can neither renew nor
  -- release: both raise LeaseLost and leave the new lease and the epoch file as they are.
  pub superseded :
      (w : String) (p : Option String) (fp ft : String) (now ttl m : ℕ) (dir : LeaseDir)
      {d : Fields} (token process : String) (e : ℤ) (now' ttl' m' : ℕ)
      → (acquire w p fp ft now ttl m dir).0 ≡ ok d
      → token ≢ ft
      → let taken = (acquire w p fp ft now ttl m dir).1 in
        (renew token e process now' ttl' m' taken
          ≡ (err (lease_lost "worker lease ownership conflict"), taken))
        × (release token e process taken
            ≡ (err (lease_lost "worker lease ownership conflict"), taken))
  superseded w p fp ft now ttl m dir token process e now' ttl' m' h ne =
      not_owner_writes_nothing token process e now' ttl' m' _
        (acquire_fences w p fp ft now ttl m dir token process e h ne)

  -- Where no lease file is left, a worker with a name gets the lease, if its time to live ends by
  -- `datetime.max`, and its epoch is the one after the recorded epoch.
  acquire_free :
      (w : String) (p : Option String) (fp ft : String) (now ttl m : ℕ) (dir : LeaseDir)
      → (strip w == "") ≡ false
      → now + ttl ≤ py.max_instant
      → dir.lease ≡ missing
      → acquire w p fp ft now ttl m dir ≡ (
          let n = suc_ℤ (max_ℤ (persisted_epoch dir.epoch) (pos 0)) in
          let d = new_lease w (text_or p fp) n ft now ttl m in
          (ok d, record { lease = readable (obj d); epoch = EpochFile.number n }))
  unfolding acquire next_epoch read_unlocked epoch_above
  acquire_free w p fp ft now ttl m dir h in_range free =
      rw (h, free, le→not_ltb (now + ttl) py.max_instant in_range)

  -- A successful release frees the lease: its file is gone and the epoch file stays.
  release_frees :
      (token process : String) (e : ℤ) (dir : LeaseDir) {b : Bool}
      → (release token e process dir).0 ≡ ok b
      → ((release token e process dir).1.lease ≡ missing)
        × ((release token e process dir).1.epoch ≡ dir.epoch)
  unfolding release
  release_frees token process e dir h = ground arith
