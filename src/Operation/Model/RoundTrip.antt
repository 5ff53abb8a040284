-- ===== src/Operation/Model/RoundTrip.antt =====
-- An operation is read as it was written, but for an empty `requested_by`.
use rexec_op.Base.{
  String, ◌≡◌, refl, ap, ◌∙◌, false, not, ◌==◌, List, [], ◌∷◌, map, if◌then◌else◌, ok,
}
use rexec_op.Json.{Value, str, of_list, to_list}
use rexec_op.Json.Python.{Python, to_text}
use rexec_op.Operation.Model.{
  StateTransitionRecord, Operation, record_value, as_dict, read_history, from_dict,
}

to_list-of_list : (vs : List Value) → to_list (of_list vs) ≡ vs
to_list-of_list [] = refl
to_list-of_list (v ∷ vs) = ap (λ x. v ∷ x) (to_list-of_list vs)

-- What `from_dict` makes of `requested_by`.
abbrev pub normal : Operation → Operation
normal o = record o {
  requested_by = if not (o.requested_by == "") then o.requested_by else "operator";
}

module _ ⦃py : Python⦄ where
  read_history-map : (rs : List StateTransitionRecord) → read_history (map record_value rs) ≡ ok rs
  unfolding read_history
  read_history-map [] = refl
  read_history-map (r ∷ rs) = rw (read_history-map rs) refl

  to_text-map : (ids : List String) → map to_text (map str ids) ≡ ids
  to_text-map [] = refl
  to_text-map (a ∷ ids) = ap (λ x. a ∷ x) (to_text-map ids)

  -- Reading what `as_dict` wrote gives the operation back, with "operator" where `requested_by` is
  -- empty.
  pub from_dict-as_dict : (o : Operation) → from_dict (as_dict o) ≡ ok (normal o)
  unfolding from_dict as_dict
  from_dict-as_dict o =
      rw
        (
          to_list-of_list (map record_value o.history),
          read_history-map o.history,
          to_list-of_list (map str o.evidence_event_ids),
          to_text-map o.evidence_event_ids,
        )
        refl

  -- An operation whose `requested_by` is not empty survives being written and read.
  pub from_dict_round_trip :
      (o : Operation) → (o.requested_by == "") ≡ false → from_dict (as_dict o) ≡ ok o
  from_dict_round_trip o h = from_dict-as_dict o ∙ same
    where
      same : ok (normal o) ≡ ok o
      same = rw h refl
