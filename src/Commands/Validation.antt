-- ===== src/Commands/Validation.antt =====
-- What `validateCommand` of buzz-hermes-bridge/src/commands/schemas.ts guarantees of a command that it
-- returns, where Ajv reports no error exactly for the objects that conform to the schema.
use assurance_toto.Prelude.{
  String, Bool, true, Option, none, some, List, [], ◌∷◌, ◌≡◌, refl, sym, subst, ◌∙◌, inl, inr, ◌↔◌,
  eq_iff, lookup, member, Bool-cases, ◌==◌, if◌then◌else◌,
}
use assurance_toto.Json.{Json, str, obj, Fields, props}
use assurance_toto.Commands.{
  Command, claim_settlement_approve, claim_settlement_reject, policy_pricing_exception_approve,
  agent_killswitch_activate, agent_killswitch_deactivate, finance_report_request, valid,
  validate_command, by_schema, by_errors, by_type, get_schema, as_command,
  claim_settlement_approve_schema, claim_settlement_reject_schema,
  policy_pricing_exception_approve_schema, killswitch_schema, finance_report_request_schema,
}
use assurance_toto.Commands.Conforming.{
  IsText, IsAmount, IsText-field, IsAmount-field, npub-field, periode-field, date-field,
  AreTexts-field, AreTexts,
}
use assurance_toto.Commands.Keywords.{Schema, conforms, matches_npub, matches_periode}

module _ (is_date_time : String → Bool) where
  -- The bounds of the six schemas.
  abbrev pub IsWellFormed : Command → Type 0
  IsWellFormed (claim_settlement_approve id m r by at) =
      IsText 64 id × IsAmount m × IsText 500 r × (matches_npub by ≡ true) × (is_date_time at ≡ true)
  IsWellFormed (claim_settlement_reject id r by at) =
      IsText 64 id × IsText 500 r × (matches_npub by ≡ true) × (is_date_time at ≡ true)
  IsWellFormed (policy_pricing_exception_approve id m r by at) =
      IsText 64 id × IsAmount m × IsText 500 r × (matches_npub by ≡ true) × (is_date_time at ≡ true)
  IsWellFormed (agent_killswitch_activate by r at) =
      (matches_npub by ≡ true) × IsText 500 r × (is_date_time at ≡ true)
  IsWellFormed (agent_killswitch_deactivate by r at) =
      (matches_npub by ≡ true) × IsText 500 r × (is_date_time at ≡ true)
  IsWellFormed (finance_report_request p ds by at) =
      (matches_periode p ≡ true)
      × AreTexts 20 ds
      × (matches_npub by ≡ true)
      × (is_date_time at ≡ true)

  as_command-approve :
      (o : List (String × Json))
      → conforms is_date_time claim_settlement_approve_schema o ≡ true
      → IsWellFormed (as_command "claim.settlement.approve" o)
  unfolding as_command member lookup
  as_command-approve o h =
      let s = claim_settlement_approve_schema in
      (
        IsText-field is_date_time s o h "claim_id" 64 refl refl,
        IsAmount-field is_date_time s o h "max_amount_eur" refl refl,
        IsText-field is_date_time s o h "reason" 500 refl refl,
        npub-field is_date_time s o h "approved_by" refl refl,
        date-field is_date_time s o h "requested_at" refl refl,
      )

  as_command-reject :
      (o : List (String × Json))
      → conforms is_date_time claim_settlement_reject_schema o ≡ true
      → IsWellFormed (as_command "claim.settlement.reject" o)
  unfolding as_command member lookup
  as_command-reject o h =
      let s = claim_settlement_reject_schema in
      (
        IsText-field is_date_time s o h "claim_id" 64 refl refl,
        IsText-field is_date_time s o h "reason" 500 refl refl,
        npub-field is_date_time s o h "approved_by" refl refl,
        date-field is_date_time s o h "requested_at" refl refl,
      )

  as_command-pricing :
      (o : List (String × Json))
      → conforms is_date_time policy_pricing_exception_approve_schema o ≡ true
      → IsWellFormed (as_command "policy.pricing.exception.approve" o)
  unfolding as_command member lookup
  as_command-pricing o h =
      let s = policy_pricing_exception_approve_schema in
      (
        IsText-field is_date_time s o h "contrat_id" 64 refl refl,
        IsAmount-field is_date_time s o h "new_prime_eur" refl refl,
        IsText-field is_date_time s o h "reason" 500 refl refl,
        npub-field is_date_time s o h "approved_by" refl refl,
        date-field is_date_time s o h "requested_at" refl refl,
      )

  as_command-activate :
      (o : List (String × Json))
      → conforms is_date_time (killswitch_schema "agent.killswitch.activate") o ≡ true
      → IsWellFormed (as_command "agent.killswitch.activate" o)
  unfolding as_command member lookup
  as_command-activate o h =
      let s = killswitch_schema "agent.killswitch.activate" in
      (
        npub-field is_date_time s o h "approved_by" refl refl,
        IsText-field is_date_time s o h "reason" 500 refl refl,
        date-field is_date_time s o h "requested_at" refl refl,
      )

  as_command-deactivate :
      (o : List (String × Json))
      → conforms is_date_time (killswitch_schema "agent.killswitch.deactivate") o ≡ true
      → IsWellFormed (as_command "agent.killswitch.deactivate" o)
  unfolding as_command member lookup
  as_command-deactivate o h =
      let s = killswitch_schema "agent.killswitch.deactivate" in
      (
        npub-field is_date_time s o h "approved_by" refl refl,
        IsText-field is_date_time s o h "reason" 500 refl refl,
        date-field is_date_time s o h "requested_at" refl refl,
      )

  as_command-report :
      (o : List (String × Json))
      → conforms is_date_time finance_report_request_schema o ≡ true
      → IsWellFormed (as_command "finance.report.request" o)
  unfolding as_command member lookup
  as_command-report o h =
      let s = finance_report_request_schema in
      (
        periode-field is_date_time s o h "periode" refl refl,
        AreTexts-field is_date_time s o h "departements" 20 refl refl,
        npub-field is_date_time s o h "approved_by" refl refl,
        date-field is_date_time s o h "requested_at" refl refl,
      )

  -- One name of the schema list.
  unless_named :
      (id name : String) (sch s : Schema) (rest : Option Schema) (o : List (String × Json))
      → (id ≡ sch.id)
      → (if sch.id == name then some sch else rest) ≡ some s
      → conforms is_date_time s o ≡ true
      → (conforms is_date_time sch o ≡ true → IsWellFormed (as_command id o))
      → (rest ≡ some s → IsWellFormed (as_command name o))
      → IsWellFormed (as_command name o)
  unless_named id name sch s rest o i g h this later = elim (Bool-cases (sch.id == name)) [
    | inl same ↦
        let p : sch ≡ s = cc (rw same at g) in
        subst (λ n. IsWellFormed (as_command n o)) (i ∙ (eq_iff sch.id name).0 same)
          (this (subst (λ x. conforms is_date_time x o ≡ true) (sym p) h))
    | inr other ↦ later (rw other at g)
  ]

  as_command-IsWellFormed :
      (name : String) (o : List (String × Json)) (s : Schema)
      → get_schema name ≡ some s
      → conforms is_date_time s o ≡ true
      → IsWellFormed (as_command name o)
  unfolding get_schema
  as_command-IsWellFormed name o s g h =
      unless_named "claim.settlement.approve" name _ s _ o refl g h (as_command-approve o) λ g.
        unless_named "claim.settlement.reject" name _ s _ o refl g h (as_command-reject o) λ g.
          unless_named "policy.pricing.exception.approve" name _ s _ o refl g h
            (as_command-pricing o)
            λ g.
              unless_named "agent.killswitch.activate" name _ s _ o refl g h (as_command-activate o)
                λ g.
                  unless_named "agent.killswitch.deactivate" name _ s _ o refl g h
                    (as_command-deactivate o)
                    λ g.
                      unless_named "finance.report.request" name _ s _ o refl g h
                        (as_command-report o) λ g. absurd (cc (g))

  module _ (errors : Schema → List (String × Json) → List String)
      (ajv : (s : Schema) (o : List (String × Json))
        → (errors s o ≡ []) ↔ (conforms is_date_time s o ≡ true)) where
    by_errors-IsWellFormed :
        (name : String) (o : Fields) (s : Schema) (es : List String) (cmd : Command) (id : String)
        → get_schema name ≡ some s
        → errors s (props o) ≡ es
        → by_errors errors name o es ≡ valid cmd id
        → IsWellFormed cmd
    by_errors-IsWellFormed name o s [] cmd id g e v =
        let p : as_command name (props o) ≡ cmd = cc (v) in
        subst IsWellFormed p (as_command-IsWellFormed name (props o) s g ((ajv s (props o)).0 e))
    by_errors-IsWellFormed name o s (e ∷ es) cmd id g x v = absurd (cc (v))

    by_schema-IsWellFormed :
        (name : String) (o : Fields) (s : Option Schema) (cmd : Command) (id : String)
        → get_schema name ≡ s
        → by_schema errors name o s ≡ valid cmd id
        → IsWellFormed cmd
    by_schema-IsWellFormed name o none cmd id g v = absurd (cc (v))
    by_schema-IsWellFormed name o (some s) cmd id g v =
        by_errors-IsWellFormed name o s (errors s (props o)) cmd id g refl v

    by_type-IsWellFormed :
        (o : Fields) (t : Option Json) (cmd : Command) (id : String)
        → by_type errors o t ≡ valid cmd id
        → IsWellFormed cmd
    by_type-IsWellFormed o (some (str name)) cmd id v =
        by_schema-IsWellFormed name o (get_schema name) cmd id refl v
    by_type-IsWellFormed o _ cmd id v = absurd (cc (v))

    -- If Ajv reports no error exactly for the objects that conform to a schema, a payload that
    -- `validateCommand` accepts is a command within the bounds of its type: amounts above 0 and at most
    -- ten million euros, identifiers of 1 to 64 and reasons of 1 to 500 characters, an author that is a
    -- key, and a time in the format date-time; a report has a period that is a month of this
    -- century and 1 to 20 departments, none of them empty.
    pub validate_command-IsWellFormed :
        (payload : Json) (cmd : Command) (id : String)
        → validate_command errors payload ≡ valid cmd id
        → IsWellFormed cmd
    unfolding validate_command
    validate_command-IsWellFormed (obj o) cmd id v = by_type-IsWellFormed o _ cmd id v
    validate_command-IsWellFormed _ cmd id v = absurd (cc (v))
