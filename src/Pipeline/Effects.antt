-- ===== src/Pipeline/Effects.antt =====
-- Step 7 of `runPipeline` (buzz-hermes-bridge/src/pipeline.ts): the business effect of each command,
-- `settleClaimEffect` of db/repository.ts, and the text of the message back.
use assurance_toto.Prelude.{
  ℕ, ◌*◌, min, String, false, Option, none, some, [], ◌∷◌, template, pos, neg_abs, show_hundredths,
  ℤ,
}
use assurance_toto.Json.{Json, bool, num, str, object, texts, get, print_leaf}
use assurance_toto.Commands.{
  Command, claim_settlement_approve, claim_settlement_reject, policy_pricing_exception_approve,
  agent_killswitch_activate, agent_killswitch_deactivate, finance_report_request,
}
use assurance_toto.Exec.{Exec, pure, ◌>>=◌, ◌>>◌}
use assurance_toto.Repository.{
  Repository, Reply, id_row, insert_pnl, settle_sinistre, refuse_sinistre, approve_approbation,
  refuse_approbation, activate_kill_switch, deactivate_kill_switch, insert_pricing,
}

-- `Number(r.rows[0]?.id ?? '0')`
abbrev pub new_id : Reply → ℕ
new_id (id_row id) = id
new_id _ = 0

-- The command as an object, for the audit payload. The source keeps the key order of the sender, which
-- the canonical form that is hashed forgets.
abbrev pub command_json : Command → Json
command_json (claim_settlement_approve id m r by at) = object (
    ("type", str "claim.settlement.approve")
    ∷ ("claim_id", str id)
    ∷ ("max_amount_eur", num (pos m))
    ∷ ("reason", str r)
    ∷ ("approved_by", str by)
    ∷ ("requested_at", str at)
    ∷ [])
command_json (claim_settlement_reject id r by at) = object (
    ("type", str "claim.settlement.reject")
    ∷ ("claim_id", str id)
    ∷ ("reason", str r)
    ∷ ("approved_by", str by)
    ∷ ("requested_at", str at)
    ∷ [])
command_json (policy_pricing_exception_approve id m r by at) = object (
    ("type", str "policy.pricing.exception.approve")
    ∷ ("contrat_id", str id)
    ∷ ("new_prime_eur", num (pos m))
    ∷ ("reason", str r)
    ∷ ("approved_by", str by)
    ∷ ("requested_at", str at)
    ∷ [])
command_json (agent_killswitch_activate by r at) = object (
    ("type", str "agent.killswitch.activate")
    ∷ ("approved_by", str by)
    ∷ ("reason", str r)
    ∷ ("requested_at", str at)
    ∷ [])
command_json (agent_killswitch_deactivate by r at) = object (
    ("type", str "agent.killswitch.deactivate")
    ∷ ("approved_by", str by)
    ∷ ("reason", str r)
    ∷ ("requested_at", str at)
    ∷ [])
command_json (finance_report_request p ds by at) = object (
    ("type", str "finance.report.request")
    ∷ ("periode", str p)
    ∷ ("departements", texts ds)
    ∷ ("approved_by", str by)
    ∷ ("requested_at", str at)
    ∷ [])

-- The amount that a settlement books: the requested cap, at most the threshold, as an expense.
abbrev pub settled_amount : ℕ → ℕ → ℤ
settled_amount max_amount threshold = neg_abs (min max_amount threshold)

module _ {S : Type 0} (repo : Repository S) (threshold_eur : ℕ) (correlation_id : String) where
  -- `settleClaimEffect`
  unfoldable pub settle_claim_effect : String → ℕ → Exec S Json
  settle_claim_effect claim_id max_amount = do
    reply ← repo.query (
        insert_pnl correlation_id "auto" "reglement" (settled_amount max_amount threshold_eur)
          (template ("Settlement claim " ∷ claim_id ∷ [])))
    repo.query (settle_sinistre claim_id)
    repo.query (approve_approbation correlation_id)
    pure (
        object (
          ("pnlRowId", num (pos (100 * new_id reply)))
          ∷ ("montant", num (settled_amount max_amount threshold_eur))
          ∷ []))

  -- The `switch` inside the transaction.
  unfoldable pub business_effect : Command → Exec S Json
  business_effect (claim_settlement_approve claim_id max_amount _ _ _) =
      settle_claim_effect claim_id max_amount
  business_effect (claim_settlement_reject claim_id _ _ _) = do
    repo.query (refuse_sinistre claim_id)
    repo.query (refuse_approbation correlation_id)
    pure (object (("settled", bool false) ∷ []))
  business_effect (agent_killswitch_activate by _ _) = do
    repo.query (activate_kill_switch by)
    pure (object (("killswitch", str "actif") ∷ []))
  business_effect (agent_killswitch_deactivate by _ _) = do
    repo.query (deactivate_kill_switch by)
    pure (object (("killswitch", str "inactif") ∷ []))
  business_effect (policy_pricing_exception_approve contrat_id new_prime reason by at) = do
    repo.query
        (insert_pricing correlation_id "policy.pricing.exception.approve" new_prime by reason)
    pure (object (("pricing", str "exception_appliquee") ∷ ("prime", num (pos new_prime)) ∷ []))
  business_effect (finance_report_request p _ _ _) =
      pure (object (("report", str "demande_recue") ∷ ("periode", str p) ∷ []))

-- `e.montant ?? 'n/a'`
abbrev montant_text : Option Json → String
montant_text none = "n/a"
montant_text (some v) = print_leaf v

-- `renderOutboundText`
unfoldable pub render_outbound_text : Command → String → Json → String
render_outbound_text (claim_settlement_approve id _ _ _ _) c effect = template (
    "[ok] correlation_id="
    ∷ c
    ∷ " reglement claim="
    ∷ id
    ∷ " montant="
    ∷ montant_text (get "montant" effect)
    ∷ [])
render_outbound_text (claim_settlement_reject id _ _ _) c effect =
    template ("[ok] correlation_id=" ∷ c ∷ " rejet claim=" ∷ id ∷ [])
render_outbound_text (policy_pricing_exception_approve id prime _ _ _) c effect = template (
    "[ok] correlation_id="
    ∷ c
    ∷ " pricing exception contrat="
    ∷ id
    ∷ " prime="
    ∷ show_hundredths prime
    ∷ [])
render_outbound_text (agent_killswitch_activate by _ _) c effect =
    template ("[ok] correlation_id=" ∷ c ∷ " killswitch=active by=" ∷ by ∷ [])
render_outbound_text (agent_killswitch_deactivate by _ _) c effect =
    template ("[ok] correlation_id=" ∷ c ∷ " killswitch=inactive by=" ∷ by ∷ [])
render_outbound_text (finance_report_request p _ _ _) c effect =
    template ("[ok] correlation_id=" ∷ c ∷ " report requested period=" ∷ p ∷ [])
