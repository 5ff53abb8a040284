-- ===== src/Storage/Governance.antt =====
-- storage/file_store.py: `claim_governance_decision_once`. The directory governance_claims/ is two
-- functions on the keys in its file names; `none` is a file that is not there. The flock makes a
-- call one step.
pub mod Once
use Prim.Native.Char.{code}
use Prim.Native.String
use Prim.Native.String.{count}
use rexec_op.Base.{
  ℕ, String, Bool, true, false, not, ◌&&◌, ◌||◌, Option, none, some, ◌==◌, nat_eq, leb,
  if◌then◌else◌, Result, ok, err, validation_error, Action, commit, raise_if,
}
use rexec_op.Json.{str, Fields, end, field}
use rexec_op.Json.Python.{Python, strip}
use rexec_op.Attempts.{starts_with}

-- What a call is told.
pub record Claim : Type 0 where
  pub decision_digest : String
  pub nonce : String
  pub attempt_id : String
  pub runtime_instance_id : String

pub record Directory : Type 0 where
  pub decisions : String → Option Fields
  pub nonces : String → Option Fields

-- `s.removeprefix(prefix)`, whole where the prefix is not there
abbrev after_prefix : String → String → String → String
after_prefix whole String.[] s = s
after_prefix whole (String.◌∷◌ c p) String.[] = whole
after_prefix whole (String.◌∷◌ c p) (String.◌∷◌ d s) =
    if nat_eq (code c) (code d) then after_prefix whole p s else whole

abbrev is_hex_digit : ℕ → Bool
is_hex_digit c = (leb 48 c && leb c 57) || (leb 97 c && leb c 102)

abbrev all_hex_digits : String → Bool
all_hex_digits String.[] = true
all_hex_digits (String.◌∷◌ c s) = is_hex_digit (code c) && all_hex_digits s

-- The condition of the raise.
unfoldable pub is_invalid : Claim → Bool
is_invalid c =
    let digest_value = after_prefix c.decision_digest "sha256:" c.decision_digest in
    not (nat_eq (count digest_value) 64)
    || not (all_hex_digits digest_value)
    || strip c.nonce == ""
    || not (leb (count c.nonce) 256)
    || not (starts_with c.attempt_id "attempt-")
    || not (leb (count c.attempt_id) 96)
    || strip c.runtime_instance_id == ""
    || not (leb (count c.runtime_instance_id) 256)

abbrev pub exists : Option Fields → Bool
exists none = false
exists (some d) = true

abbrev pub with_key : String → Fields → (String → Option Fields) → String → Option Fields
with_key key d files = λ k. if k == key then some d else files k

module _ ⦃py : Python⦄ where
  abbrev pub decision_record : Claim → Fields
  decision_record c = field "schema" (str "rexecop.governance_decision_claim.v0.1") (
      field "decision_digest" (str c.decision_digest) (
        field "nonce_digest" (str (String.◌++◌ "sha256:" (py.sha256 c.nonce))) (
          field "attempt_id" (str c.attempt_id)
            (field "runtime_instance_id" (str c.runtime_instance_id) end))))

  abbrev pub nonce_record : Claim → Fields
  nonce_record c = field "schema" (str "rexecop.governance_nonce_claim.v0.1") (
      field "decision_claim_ref" (str (String.◌++◌ "sha256:" (py.sha256 c.decision_digest))) (
        field "attempt_id" (str c.attempt_id)
          (field "runtime_instance_id" (str c.runtime_instance_id) end)))

  abbrev pub is_used : Claim → Directory → Bool
  is_used c dir =
      exists (dir.decisions (py.sha256 c.decision_digest))
      || exists (dir.nonces (py.sha256 c.nonce))

  abbrev pub with_claim : Claim → Directory → Directory
  with_claim c dir = record {
    decisions = with_key (py.sha256 c.decision_digest) (decision_record c) dir.decisions;
    nonces = with_key (py.sha256 c.nonce) (nonce_record c) dir.nonces;
  }

  abbrev pub claim_unlocked : Claim → Action Directory Bool
  claim_unlocked c dir = if is_used c dir then (ok false, dir) else (ok true, with_claim c dir)

  unfoldable pub claim_governance_decision_once : Claim → Action Directory Bool
  claim_governance_decision_once c dir =
      if is_invalid c
      then (err (validation_error "invalid governance decision claim"), dir)
      else claim_unlocked c dir
