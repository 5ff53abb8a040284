-- ===== src/Queue/Topology/Laws.antt =====
-- The topology check as an invariant: what it says of pending and claims, and how it survives
-- changes of either.
use rexec_op.Base.{
  String, ◌≡◌, refl, ◌≢◌, Bool, true, false, not, ◌&&◌, ◌||◌, none, List, [], ◌∷◌, ◌++◌, arith,
  eq_iff, ◌==◌, all, distinct, contains, distinct-append_new, ok, >>=-eq-ok, Bool-cases, inl, inr,
  ==_refl, ap,
}
use rexec_op.Json.{
  Value, null, bool, int, str, arr, obj, Fields, end, field, get, has, put, keys, is_nonempty_text,
}
use rexec_op.Json.Laws.{HasUniqueKeys, contains-keys}
use rexec_op.Json.Python.{Python}
use rexec_op.Queue.Store.{texts, in_pending}
use rexec_op.Queue.Topology.{claim_is_sound, first_unsound, blocked_at}

-- The pending list: texts, none empty and none twice.
pub record IsOrderly (pending : List Value) : Type 0 where
  pub all_texts : all is_nonempty_text pending ≡ true
  pub no_repeats : distinct (texts pending) ≡ true

pub in_pending-append :
    (a : String) (p r : List Value) → in_pending a (p ++ r) ≡ (in_pending a p || in_pending a r)
in_pending-append a [] r = refl
in_pending-append a (v ∷ p) r = ground (arith, in_pending-append a p r)

pub contains-texts : (a : String) (p : List Value) → contains a (texts p) ≡ in_pending a p
contains-texts a [] = refl
contains-texts a (str s ∷ p) = ground (arith, eq_iff a s, eq_iff s a, contains-texts a p)
contains-texts a (null ∷ p) = contains-texts a p
contains-texts a (bool b ∷ p) = contains-texts a p
contains-texts a (int n ∷ p) = contains-texts a p
contains-texts a (arr xs ∷ p) = contains-texts a p
contains-texts a (obj d ∷ p) = contains-texts a p

texts-append : (p : List Value) (a : String) → texts (p ++ str a ∷ []) ≡ texts p ++ a ∷ []
texts-append [] a = refl
texts-append (str s ∷ p) a = rw (texts-append p a)
texts-append (null ∷ p) a = texts-append p a
texts-append (bool b ∷ p) a = texts-append p a
texts-append (int n ∷ p) a = texts-append p a
texts-append (arr xs ∷ p) a = texts-append p a
texts-append (obj d ∷ p) a = texts-append p a

all-append_one :
    (p : List Value) (v : Value)
    → all is_nonempty_text p ≡ true
    → is_nonempty_text v ≡ true
    → all is_nonempty_text (p ++ v ∷ []) ≡ true
all-append_one [] v h hv = rw hv
all-append_one (w ∷ p) v h hv = ground (arith, all-append_one p v)

-- A new entry at the end keeps the list in order.
pub append-IsOrderly :
    (p : List Value) (a : String)
    → IsOrderly p
    → (a == "") ≡ false
    → in_pending a p ≡ false
    → IsOrderly (p ++ str a ∷ [])
append-IsOrderly p a h ne new = record {
  all_texts = all-append_one p (str a) h.all_texts (rw ne);
  no_repeats =
      rw (texts-append p a)
        (distinct-append_new a (texts p) (rw (contains-texts a p) new) h.no_repeats);
}

-- The rest of a list in order, and its first entry is not in the rest.
pub tail-IsOrderly :
    (a : String) (p : List Value) → IsOrderly (str a ∷ p) → IsOrderly p × (in_pending a p ≡ false)
tail-IsOrderly a p h = (
  record { all_texts = ground (arith, h.all_texts); no_repeats = ground (arith, h.no_repeats) },
  ground (arith, h.no_repeats, contains-texts a p),
)

-- Under unique keys no later key is the first one.
not_head :
    (k j i : String) (d : Fields)
    → (k == j) ≡ true
    → (not (contains j (keys d)) && distinct (keys d)) ≡ true
    → has i d ≡ true
    → i ≢ k
not_head k j i d same u here e = ground (
  arith,
  eq_iff k j,
  contains-keys i d,
  ap (λ x. contains x (keys d)) e,
  ap (λ x. contains x (keys d)) ((eq_iff k j).0 same),
)

module _ ⦃py : Python⦄ where
  sound_mono :
      (p p' : List Value) (k : String) (v : Value)
      → (in_pending k p ≡ true → in_pending k p' ≡ true)
      → claim_is_sound p k v ≡ ok true
      → claim_is_sound p' k v ≡ ok true
  unfolding claim_is_sound
  sound_mono p p' k (obj c) up h = ground arith
  sound_mono p p' k null up h = cc
  sound_mono p p' k (bool b) up h = cc
  sound_mono p p' k (int n) up h = cc
  sound_mono p p' k (str s) up h = cc
  sound_mono p p' k (arr xs) up h = cc

  first_unsound-cons :
      (p : List Value) (k : String) (v : Value) (d : Fields)
      → first_unsound p (field k v d) ≡ ok none
      → (claim_is_sound p k v ≡ ok true) × (first_unsound p d ≡ ok none)
  unfolding first_unsound
  first_unsound-cons p k v d h =
      let (b, sound, rest) = >>=-eq-ok (claim_is_sound p k v) _ h in go b sound rest
    where
      go :
          (b : Bool)
          → claim_is_sound p k v ≡ ok b
          → blocked_at b k (first_unsound p d) ≡ ok none
          → (claim_is_sound p k v ≡ ok true) × (first_unsound p d ≡ ok none)
      go true s r = (s, r)
      go false s r = cc

  first_unsound-field :
      (p : List Value) (k : String) (v : Value) (d : Fields)
      → claim_is_sound p k v ≡ ok true
      → first_unsound p d ≡ ok none
      → first_unsound p (field k v d) ≡ ok none
  unfolding first_unsound
  first_unsound-field p k v d sound rest = rw (sound, rest)

  nothing : (p : List Value) → first_unsound p end ≡ ok none
  unfolding first_unsound
  nothing p = refl

  -- The claim found under a key of sound claims is sound.
  pub get_sound :
      (p : List Value) (k : String) (d : Fields)
      → first_unsound p d ≡ ok none
      → has k d ≡ true
      → claim_is_sound p k (get k d) ≡ ok true
  get_sound p k end h here = cc
  get_sound p k (field j v d) h here =
      let (sound, rest) = first_unsound-cons p j v d h in
      elim (Bool-cases (k == j)) [
        | inl same ↦ rw (same, (eq_iff k j).0 same) sound
        | inr other ↦ rw other (get_sound p k d rest (rw other at here))
      ]

  -- Claims stay sound as long as no key leaves the pending list.
  pub first_unsound_mono :
      (p p' : List Value) (d : Fields)
      → ((k : String) → has k d ≡ true → in_pending k p ≡ true → in_pending k p' ≡ true)
      → first_unsound p d ≡ ok none
      → first_unsound p' d ≡ ok none
  unfolding first_unsound
  first_unsound_mono p p' end up h = refl
  first_unsound_mono p p' (field k v d) up h =
      let (sound, rest) = first_unsound-cons p k v d h in
      first_unsound-field p' k v d (sound_mono p p' k v (up k (rw ==_refl refl)) sound)
        (first_unsound_mono p p' d (λ j here. up j (ground (arith, here))) rest)

  -- A claim written under a key, while only that key may leave the pending list.
  pub first_unsound-put :
      (p p' : List Value) (k : String) (v : Value) (d : Fields)
      → HasUniqueKeys d
      → ((j : String) → j ≢ k → in_pending j p ≡ true → in_pending j p' ≡ true)
      → claim_is_sound p' k v ≡ ok true
      → first_unsound p d ≡ ok none
      → first_unsound p' (put k v d) ≡ ok none
  first_unsound-put p p' k v end u up sound h = first_unsound-field p' k v end sound (nothing p')
  first_unsound-put p p' k v (field j w d) u up sound h =
      let (sound_w, rest) = first_unsound-cons p j w d h in
      elim (Bool-cases (k == j)) [
        | inl same ↦ rw same (
            first_unsound-field p' k v d sound
              (first_unsound_mono p p' d (λ i here. up i (not_head k j i d same u here)) rest))
        | inr other ↦ rw other (
            first_unsound-field p' j w (put k v d)
              (sound_mono p p' j w (up j (λ e. ground (arith, eq_iff k j, other, e))) sound_w)
              (first_unsound-put p p' k v d (ground (arith, u)) up sound rest))
      ]
