-- ===== src/Commands.antt =====
-- buzz-hermes-bridge/src/commands/schemas.ts: the command types, their JSON schemas as data, and
-- `validateCommand`. An amount is a count of hundredths of a euro.
pub mod Keywords
pub mod Conforming
pub mod Validation
use Keywords.{
  PropSchema, const, text, number, pattern, date_time, text_array, Pattern, npub, periode, Schema,
}
use assurance_toto.Prelude.{
  ℕ, zero, String, Bool, true, false, Option, none, some, List, [], ◌∷◌, ℤ, pos, pos_part, lookup,
  template, map, ◌==◌, if◌then◌else◌, or_else,
}
use assurance_toto.Json.{
  Json, null, bool, num, str, arr, obj, Fields, Items, nil, cons, props, elems, stable_stringify,
}

pub data Command : Type 0 where
  claim_settlement_approve :
      (claim_id : String) (max_amount_eur : ℕ) (reason approved_by requested_at : String) → Command
  claim_settlement_reject : (claim_id reason approved_by requested_at : String) → Command
  policy_pricing_exception_approve :
      (contrat_id : String) (new_prime_eur : ℕ) (reason approved_by requested_at : String) → Command
  agent_killswitch_activate : (approved_by reason requested_at : String) → Command
  agent_killswitch_deactivate : (approved_by reason requested_at : String) → Command
  finance_report_request :
      (periode : String) (departements : List String) (approved_by requested_at : String) → Command

-- `command.type`
abbrev pub type_name : Command → String
type_name (claim_settlement_approve _ _ _ _ _) = "claim.settlement.approve"
type_name (claim_settlement_reject _ _ _ _) = "claim.settlement.reject"
type_name (policy_pricing_exception_approve _ _ _ _ _) = "policy.pricing.exception.approve"
type_name (agent_killswitch_activate _ _ _) = "agent.killswitch.activate"
type_name (agent_killswitch_deactivate _ _ _) = "agent.killswitch.deactivate"
type_name (finance_report_request _ _ _ _) = "finance.report.request"

-- `command.approved_by`
abbrev pub approved_by : Command → String
approved_by (claim_settlement_approve _ _ _ by _) = by
approved_by (claim_settlement_reject _ _ by _) = by
approved_by (policy_pricing_exception_approve _ _ _ by _) = by
approved_by (agent_killswitch_activate by _ _) = by
approved_by (agent_killswitch_deactivate by _ _) = by
approved_by (finance_report_request _ _ by _) = by

abbrev max_amount : ℤ
max_amount = pos 1_000_000_000

abbrev pub claim_settlement_approve_schema : Schema
claim_settlement_approve_schema = record {
  id = "claim.settlement.approve";
  required =
      "type" ∷ "claim_id" ∷ "max_amount_eur" ∷ "reason" ∷ "approved_by" ∷ "requested_at" ∷ [];
  properties =
      ("type", const "claim.settlement.approve")
      ∷ ("claim_id", text 1 64)
      ∷ ("max_amount_eur", number (pos 0) max_amount)
      ∷ ("reason", text 1 500)
      ∷ ("approved_by", pattern npub)
      ∷ ("requested_at", date_time)
      ∷ [];
}

abbrev pub claim_settlement_reject_schema : Schema
claim_settlement_reject_schema = record {
  id = "claim.settlement.reject";
  required = "type" ∷ "claim_id" ∷ "reason" ∷ "approved_by" ∷ "requested_at" ∷ [];
  properties =
      ("type", const "claim.settlement.reject")
      ∷ ("claim_id", text 1 64)
      ∷ ("reason", text 1 500)
      ∷ ("approved_by", pattern npub)
      ∷ ("requested_at", date_time)
      ∷ [];
}

abbrev pub policy_pricing_exception_approve_schema : Schema
policy_pricing_exception_approve_schema = record {
  id = "policy.pricing.exception.approve";
  required =
      "type" ∷ "contrat_id" ∷ "new_prime_eur" ∷ "reason" ∷ "approved_by" ∷ "requested_at" ∷ [];
  properties =
      ("type", const "policy.pricing.exception.approve")
      ∷ ("contrat_id", text 1 64)
      ∷ ("new_prime_eur", number (pos 0) max_amount)
      ∷ ("reason", text 1 500)
      ∷ ("approved_by", pattern npub)
      ∷ ("requested_at", date_time)
      ∷ [];
}

-- The schemas of the two kill-switch commands differ in their type only.
abbrev pub killswitch_schema : String → Schema
killswitch_schema type_id = record {
  id = type_id;
  required = "type" ∷ "approved_by" ∷ "reason" ∷ "requested_at" ∷ [];
  properties =
      ("type", const type_id)
      ∷ ("approved_by", pattern npub)
      ∷ ("reason", text 1 500)
      ∷ ("requested_at", date_time)
      ∷ [];
}

abbrev pub finance_report_request_schema : Schema
finance_report_request_schema = record {
  id = "finance.report.request";
  required = "type" ∷ "periode" ∷ "departements" ∷ "approved_by" ∷ "requested_at" ∷ [];
  properties =
      ("type", const "finance.report.request")
      ∷ ("periode", pattern periode)
      ∷ ("departements", text_array 1 1 20)
      ∷ ("approved_by", pattern npub)
      ∷ ("requested_at", date_time)
      ∷ [];
}

abbrev pub command_schemas : List Schema
command_schemas =
    claim_settlement_approve_schema
    ∷ claim_settlement_reject_schema
    ∷ policy_pricing_exception_approve_schema
    ∷ killswitch_schema "agent.killswitch.activate"
    ∷ killswitch_schema "agent.killswitch.deactivate"
    ∷ finance_report_request_schema
    ∷ []

-- `ajv.getSchema(type)`
abbrev find_schema : List Schema → String → Option Schema
find_schema [] name = none
find_schema (s ∷ rest) name = if s.id == name then some s else find_schema rest name

unfoldable pub get_schema : String → Option Schema
get_schema name = find_schema command_schemas name

-- The fields of `obj as unknown as Command`, which the schema has checked.
abbrev pub text_of : Option Json → String
text_of (some (str s)) = s
text_of _ = ""

abbrev pub amount_of : Option Json → ℕ
amount_of (some (num n)) = pos_part n
amount_of _ = 0

abbrev pub texts_of : Option Json → List String
texts_of (some (arr vs)) = map (λ v. text_of (some v)) (elems vs)
texts_of _ = []

unfoldable pub as_command : String → List (String × Json) → Command
as_command name o =
    let field = λ (k : String). text_of (lookup k o) in
    if name == "claim.settlement.approve"
    then claim_settlement_approve (field "claim_id") (amount_of (lookup "max_amount_eur" o))
        (field "reason") (field "approved_by") (field "requested_at")
    else if name == "claim.settlement.reject"
    then claim_settlement_reject (field "claim_id") (field "reason") (field "approved_by")
        (field "requested_at")
    else if name == "policy.pricing.exception.approve"
    then policy_pricing_exception_approve (field "contrat_id")
        (amount_of (lookup "new_prime_eur" o)) (field "reason") (field "approved_by")
        (field "requested_at")
    else if name == "agent.killswitch.activate"
    then agent_killswitch_activate (field "approved_by") (field "reason") (field "requested_at")
    else if name == "agent.killswitch.deactivate"
    then agent_killswitch_deactivate (field "approved_by") (field "reason") (field "requested_at")
    else finance_report_request (field "periode") (texts_of (lookup "departements" o))
        (field "approved_by") (field "requested_at")

pub data Validated : Type 0 where
  valid : (command : Command) (command_id : String) → Validated
  invalid : (errors : List String) → Validated

-- `validateCommand`. Ajv is a parameter: `errors s o` are its errors for the object `o`, none if it
-- is valid.
module _ (errors : Schema → List (String × Json) → List String) where
  abbrev pub by_errors : String → Fields → List String → Validated
  by_errors name o [] =
      valid (as_command name (props o)) (template (name ∷ ":" ∷ stable_stringify (obj o) ∷ []))
  by_errors name o (e ∷ es) = invalid (e ∷ es)

  abbrev pub by_schema : String → Fields → Option Schema → Validated
  by_schema name o none = invalid (template ("Unknown command type: " ∷ name ∷ []) ∷ [])
  by_schema name o (some s) = by_errors name o (errors s (props o))

  abbrev pub by_type : Fields → Option Json → Validated
  by_type o (some (str name)) = by_schema name o (get_schema name)
  by_type o _ = invalid ("Missing or non-string 'type' field" ∷ [])

  unfoldable pub validate_command : Json → Validated
  validate_command (obj o) = by_type o (lookup "type" (props o))
  validate_command _ = invalid ("Non-object payload: free-form text rejected" ∷ [])
