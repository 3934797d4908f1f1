-- ===== src/Policy/Decisions.antt =====
-- What the policy of buzz-hermes-bridge/src/policy/policy.ts admits.
use assurance_toto.Prelude.{ℕ, ◌≤◌, String, true, false, some, ◌≡◌, refl, ◌⊎◌, ◌↔◌, arith, eq_iff}
use assurance_toto.Commands.{
  Command, claim_settlement_approve, agent_killswitch_deactivate, finance_report_request,
}
use assurance_toto.Rows.{SinistreRow}
use assurance_toto.Policy.{
  Role, ceo, agent_sinistres, PolicyContext, evaluate, evaluate_type, requires_ceo, is_locked,
  is_deactivate, evaluate_claim_approve,
}

-- What a settlement of claim `s` with the requested cap `max_amount` must meet.
abbrev pub MaySettle : ℕ → SinistreRow → ℕ → Role → Type 0
MaySettle max_amount s threshold role =
    ((role ≡ ceo) ⊎ ((role ≡ agent_sinistres) × (s.montant_eur ≤ threshold)))
    × ((s.statut ≡ "ouvert") ⊎ (s.statut ≡ "en_traitement"))
    × (s.montant_eur ≤ max_amount)
    × (s.compliance_bloque ≡ false)

approve_sound :
    (max_amount : ℕ) (s : SinistreRow) (threshold : ℕ) (role : Role)
    → (evaluate_claim_approve max_amount (some s) threshold role).allowed ≡ true
    → MaySettle max_amount s threshold role
unfolding evaluate_claim_approve
approve_sound m s t ceo h =
    ground (arith, eq_iff s.statut "ouvert", eq_iff s.statut "en_traitement")
approve_sound m s t agent_sinistres h =
    ground (arith, eq_iff s.statut "ouvert", eq_iff s.statut "en_traitement")
approve_sound m s t _ h = cc

approve_complete :
    (max_amount : ℕ) (s : SinistreRow) (threshold : ℕ) (role : Role)
    → MaySettle max_amount s threshold role
    → (evaluate_claim_approve max_amount (some s) threshold role).allowed ≡ true
unfolding evaluate_claim_approve
approve_complete m s t ceo h =
    ground (arith, eq_iff s.statut "ouvert", eq_iff s.statut "en_traitement")
approve_complete m s t agent_sinistres h =
    ground (arith, eq_iff s.statut "ouvert", eq_iff s.statut "en_traitement")
approve_complete m s t _ h = ground arith

-- For a claim that exists, with the kill-switch off and the command not consumed, a settlement is
-- allowed exactly when the author is the CEO, or a claims agent and the claim is within the
-- threshold; the claim is open or in treatment; its amount is within the requested cap; and
-- compliance has not blocked it.
pub evaluate-approve_iff :
    (claim_id : String) (max_amount : ℕ) (reason by at : String) (ctx : PolicyContext)
    (s : SinistreRow) (role : Role)
    → ctx.sinistre ≡ some s
    → is_locked ctx.kill_switch ≡ false
    → ctx.command_consumed ≡ false
    → ((evaluate (claim_settlement_approve claim_id max_amount reason by at) ctx role).allowed
        ≡ true)
      ↔ MaySettle max_amount s ctx.threshold_eur role
unfolding evaluate evaluate_type
evaluate-approve_iff claim_id m reason by at ctx s role found off fresh =
    rw (off, fresh, found)
      (approve_sound m s ctx.threshold_eur role, approve_complete m s ctx.threshold_eur role)

-- A command of a type that requires the CEO is allowed to the CEO only.
pub evaluate-requires_ceo :
    (cmd : Command) (ctx : PolicyContext) (role : Role)
    → requires_ceo cmd ≡ true
    → (evaluate cmd ctx role).allowed ≡ true
    → role ≡ ceo
unfolding evaluate requires_ceo
evaluate-requires_ceo cmd ctx ceo h a = refl
evaluate-requires_ceo (claim_settlement_approve c m r b t) ctx role h a = cc
evaluate-requires_ceo (finance_report_request p d b t) ctx role h a = cc
evaluate-requires_ceo cmd ctx role h a = ground arith

-- While the kill-switch is on, nothing is allowed but its deactivation by the CEO.
pub evaluate_locked :
    (cmd : Command) (ctx : PolicyContext) (role : Role)
    → is_locked ctx.kill_switch ≡ true
    → (evaluate cmd ctx role).allowed ≡ true
    → (is_deactivate cmd ≡ true) × (role ≡ ceo)
unfolding evaluate
evaluate_locked (agent_killswitch_deactivate b r t) ctx ceo h a = (refl, refl)
evaluate_locked cmd ctx role h a = ground arith

-- A consumed command is never allowed, whatever its type, its author and the state.
pub evaluate_consumed :
    (cmd : Command) (ctx : PolicyContext) (role : Role)
    → ctx.command_consumed ≡ true
    → (evaluate cmd ctx role).allowed ≡ false
unfolding evaluate
evaluate_consumed cmd ctx role h = ground arith
