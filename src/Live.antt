-- ===== src/Live.antt =====
-- The mapping of a live outcome into stage fields (src/model_council/live_contract.py).
use model_council_lab.Prelude.{
  String, none, some, ◌∷◌, [], true, false, Bool, List, Option, if◌then◌else◌, str_eq, pos,
}
use model_council_lab.Errors.{Result, ok, err, ◌>>◌, other_exception, Check}
use model_council_lab.Json.{null, integer, text, object, end, field, Fields, Json}
use model_council_lab.Roles.{verifier, reviser, condition_c, Condition, Role}
use model_council_lab.Identity.{AdapterIdentity, key, ProviderCallOutcome, is_success}

-- d[key] = value
unfoldable pub set_field : String → Json → Fields → Fields
set_field k v end = field k v end
set_field k v (field j w fs) = if str_eq j k then field j v fs else field j w (set_field k v fs)

-- AdapterIdentity.to_dict
unfoldable pub identity_to_dict : AdapterIdentity → Fields
identity_to_dict i = field "provider" (text i.provider) (
    field "model_id" (text i.model_id) (
      field "model_version" (text i.model_version) (
        field "adapter_name" (text i.adapter_name) (
          field "adapter_version" (text i.adapter_version)
            (field "identity_key" (text (key i)) end)))))

unfoldable pub update_fields : List (String × String) → Fields → Fields
update_fields [] fs = fs
update_fields ((k, v) ∷ kvs) fs = update_fields kvs (set_field k (text v) fs)

-- `structured_required` of _output_contract_for_stage
abbrev pub structured_required : Condition → Role → Bool
structured_required condition_c verifier = true
structured_required condition_c reviser = true
structured_required _ _ = false

abbrev pub observed_fields : Option (List (String × String)) → List (String × String)
observed_fields none = []
observed_fields (some kvs) = kvs

abbrev pub structured_json : Option Fields → Json
structured_json none = null
structured_json (some fs) = object fs

-- What the stage's contract says of the structured payload.
abbrev pub structured_allowed : Bool → Option Fields → Check
structured_allowed true none =
    err
      (other_exception "LiveContractError" "structured output is required for this condition/role")
structured_allowed false (some fs) = err (
    other_exception "LiveContractError"
      "structured output is not part of this condition/role contract")
structured_allowed _ _ = ok tt

-- map_live_outcome_to_stage_response, for the stage that the request was built for
unfoldable pub map_live_outcome_to_stage_response :
    Condition → Role → ProviderCallOutcome → Result Fields
map_live_outcome_to_stage_response condition role outcome =
    elim (if is_success outcome.kind then outcome.stage_output else none) [
      | none ↦ err (
          other_exception "LiveContractError"
            "only a successful live outcome can map to stage artifacts")
      | some stage ↦ do
        structured_allowed (structured_required condition role) stage.structured
        ok (
            field "text" (text stage.text) (
              field "artifacts" (object stage.artifacts) (
                field "structured" (structured_json stage.structured) (
                  field "identity_used"
                    (object (
                      update_fields (observed_fields outcome.invocation_returned_identity)
                        (identity_to_dict outcome.configured_identity)))
                    (field "tokens_in" (integer (pos 0)) (
                      field "tokens_out" (integer (pos 0)) (
                        field "tool_uses" (integer (pos outcome.tool_use_count))
                          (field "cost_units" null end))))))))
    ]
