-- ===== src/Operation/Model.antt =====
-- operation/model.py: the operation and its JSON form.
pub mod RoundTrip
use rexec_op.Base.{
  String, ◌==◌, List, [], ◌∷◌, map, if◌then◌else◌, Result, ok, err, builtin_error, ◌>>=◌,
}
use rexec_op.Base.Int.{ℤ}
use rexec_op.Json.{Value, int, str, arr, obj, Fields, end, field, get, of_list}
use rexec_op.Json.Python.{Python, text, to_text, as_int}
use rexec_op.Json.Coerce.{truthy, list_or_empty, dict_or_empty, int_or_raise, required, text_or}

pub record StateTransitionRecord : Type 0 where
  pub from_state : String
  pub to_state : String
  pub timestamp_utc : String
  pub reason : String

pub record Operation : Type 0 where
  pub id : String
  pub profile : String
  pub environment : String
  pub intent : String
  pub target : String
  pub mode : String
  pub requested_by : String
  pub state : String
  pub created_at : String
  pub updated_at : String
  pub correlation_id : String
  pub current_step_id : String
  pub govengine_decision_type : String
  pub govengine_decision_summary : String
  pub sclite_refs : Fields
  pub metadata : Fields
  pub history : List StateTransitionRecord
  pub evidence_event_ids : List String
  pub operation_revision : ℤ

-- `StateTransitionRecord.as_dict`
abbrev pub record_dict : StateTransitionRecord → Fields
record_dict r = field "from_state" (str r.from_state) (
    field "to_state" (str r.to_state)
      (field "timestamp_utc" (str r.timestamp_utc) (field "reason" (str r.reason) end)))

abbrev record_value : StateTransitionRecord → Value
record_value r = obj (record_dict r)

-- `Operation.as_dict`
unfoldable pub as_dict : Operation → Fields
as_dict o = field "id" (str o.id) (
    field "profile" (str o.profile) (
      field "environment" (str o.environment) (
        field "intent" (str o.intent) (
          field "target" (str o.target) (
            field "mode" (str o.mode) (
              field "requested_by" (str o.requested_by) (
                field "state" (str o.state) (
                  field "created_at" (str o.created_at) (
                    field "updated_at" (str o.updated_at) (
                      field "correlation_id" (str o.correlation_id) (
                        field "current_step_id" (str o.current_step_id) (
                          field "govengine_decision_type" (str o.govengine_decision_type) (
                            field "govengine_decision_summary" (str o.govengine_decision_summary) (
                              field "sclite_refs" (obj o.sclite_refs) (
                                field "metadata" (obj o.metadata) (
                                  field "history" (arr (of_list (map record_value o.history))) (
                                    field "evidence_event_ids"
                                      (arr (of_list (map str o.evidence_event_ids)))
                                      (field "operation_revision" (int o.operation_revision)
                                        end))))))))))))))))))

module _ ⦃py : Python⦄ where
  -- `StateTransitionRecord.from_dict`
  unfoldable pub read_record : Value → Result StateTransitionRecord
  read_record (obj d) = do
    from_state ← required "from_state" d
    to_state ← required "to_state" d
    timestamp_utc ← required "timestamp_utc" d
    ok (record {
      from_state = from_state;
      to_state = to_state;
      timestamp_utc = timestamp_utc;
      reason = text (get "reason" d);
    })
  read_record _ = err builtin_error

  unfoldable pub read_history : List Value → Result (List StateTransitionRecord)
  unfolding read_record
  read_history [] = ok []
  read_history (v ∷ vs) = do first ← read_record v; rest ← read_history vs; ok (first ∷ rest)

  -- `Operation.from_dict`
  unfoldable pub from_dict : Fields → Result Operation
  unfolding read_history
  from_dict d = do
    items ← list_or_empty (get "history" d)
    history ← read_history items
    id ← required "id" d
    profile ← required "profile" d
    environment ← required "environment" d
    intent ← required "intent" d
    target ← required "target" d
    mode ← required "mode" d
    state ← required "state" d
    created_at ← required "created_at" d
    updated_at ← required "updated_at" d
    sclite_refs ← dict_or_empty (get "sclite_refs" d)
    metadata ← dict_or_empty (get "metadata" d)
    evidence ← list_or_empty (get "evidence_event_ids" d)
    revision ← int_or_raise (as_int (get "operation_revision" d))
    ok (record {
      id = id;
      profile = profile;
      environment = environment;
      intent = intent;
      target = target;
      mode = mode;
      requested_by = text_or "operator" (get "requested_by" d);
      state = state;
      created_at = created_at;
      updated_at = updated_at;
      correlation_id = text (get "correlation_id" d);
      current_step_id = text (get "current_step_id" d);
      govengine_decision_type = text (get "govengine_decision_type" d);
      govengine_decision_summary = text (get "govengine_decision_summary" d);
      sclite_refs = sclite_refs;
      metadata = metadata;
      history = history;
      evidence_event_ids = map to_text evidence;
      operation_revision = revision;
    })
