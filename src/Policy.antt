-- ===== src/Policy.antt =====
-- buzz-hermes-bridge/src/policy/policy.ts: the pure decision policy. A reason is a constructor for
-- each stable code, and `reason_code` is its text.
pub mod Decisions
use assurance_toto.Prelude.{
  ℕ, min, String, Bool, true, false, Option, none, some, List, [], ◌∷◌, ◌==◌, ◌&&◌, ◌||◌, not, ltb,
  leb, if◌then◌else◌, template, show_hundredths,
}
use assurance_toto.Commands.{
  Command, claim_settlement_approve, claim_settlement_reject, policy_pricing_exception_approve,
  agent_killswitch_activate, agent_killswitch_deactivate, finance_report_request,
}
use assurance_toto.Rows.{SinistreRow, KillSwitchRow, ApprobationRow}

pub data Role : Type 0 where
  ceo conformite finance agent_sales agent_souscription agent_sinistres inconnu : Role

pub data Reason : Type 0 where
  allow : Reason
  killswitch_bloquee : Reason
  deja_consommee : Reason
  reglement_non_autorise : Reason
  sinistre_introuvable : Reason
  statut_invalide : String → Reason
  au_dessus_seuil : Reason
  depasse_plafond : (montant plafond : ℕ) → Reason
  dossier_bloque : Reason
  refus_reserve_au_ceo : Reason
  exception_reservee_au_ceo : Reason
  prime_invalide : Reason
  killswitch_reserve_au_ceo : Reason
  killswitch_deja_actif : Reason
  killswitch_deja_inactif : Reason
  rapport_reserve : Reason

-- The code that logs and callers read.
unfoldable pub reason_code : Reason → String
reason_code allow = "allow"
reason_code killswitch_bloquee = "killswitch.actif:execution_autonome_bloquee"
reason_code deja_consommee = "idempotence:commande_deja_consommee"
reason_code reglement_non_autorise = "rbac:reglement_non_autorise_pour_role"
reason_code sinistre_introuvable = "sinistre:introuvable"
reason_code (statut_invalide statut) = template ("sinistre:statut_invalide:" ∷ statut ∷ [])
reason_code au_dessus_seuil = "rbac:au_dessus_seuil_reserve_CEO"
reason_code (depasse_plafond montant plafond) = template (
    "montant:sinistre_depasse_plafond:"
    ∷ show_hundredths montant
    ∷ ">"
    ∷ show_hundredths plafond
    ∷ [])
reason_code dossier_bloque = "conformite:dossier_bloque"
reason_code refus_reserve_au_ceo = "rbac:refus_reglement_reserve_au_CEO"
reason_code exception_reservee_au_ceo = "rbac:exception_tarifaire_reservee_au_CEO"
reason_code prime_invalide = "montant:prime_invalide"
reason_code killswitch_reserve_au_ceo = "rbac:killswitch_reserve_au_CEO"
reason_code killswitch_deja_actif = "killswitch:deja_actif"
reason_code killswitch_deja_inactif = "killswitch:deja_inactif"
reason_code rapport_reserve = "rbac:rapport_pnl_reserve_ceo_finance_conformite"

pub record PolicyDecision : Type 0 where
  pub allowed : Bool
  pub reason : Reason

abbrev pub allow_decision : PolicyDecision
allow_decision = record { allowed = true; reason = allow }

abbrev pub deny : Reason → PolicyDecision
deny r = record { allowed = false; reason = r }

-- `PolicyContext`
pub record PolicyContext : Type 0 where
  pub kill_switch : Option KillSwitchRow
  pub sinistre : Option SinistreRow
  pub command_consumed : Bool
  pub approbation : Option ApprobationRow
  pub threshold_eur : ℕ

abbrev pub is_ceo : Role → Bool
is_ceo ceo = true
is_ceo _ = false

abbrev pub is_sinistres_agent : Role → Bool
is_sinistres_agent agent_sinistres = true
is_sinistres_agent _ = false

-- `killSwitch !== null && killSwitch.actif`
abbrev pub is_locked : Option KillSwitchRow → Bool
is_locked none = false
is_locked (some k) = k.actif

-- `cmd.type === 'agent.killswitch.deactivate'`
abbrev pub is_deactivate : Command → Bool
is_deactivate (agent_killswitch_deactivate _ _ _) = true
is_deactivate _ = false

-- The effective cap: the requested one for the CEO, at most the threshold for an agent.
abbrev pub plafond : Role → ℕ → ℕ → ℕ
plafond role max_amount threshold = if is_ceo role then max_amount else min max_amount threshold

abbrev pub is_open : String → Bool
is_open statut = statut == "ouvert" || statut == "en_traitement"

unfoldable pub evaluate_claim_approve : ℕ → Option SinistreRow → ℕ → Role → PolicyDecision
evaluate_claim_approve max_amount none threshold role =
    if not (is_ceo role) && not (is_sinistres_agent role)
    then deny reglement_non_autorise
    else deny sinistre_introuvable
evaluate_claim_approve max_amount (some s) threshold role =
    if not (is_ceo role) && not (is_sinistres_agent role)
    then deny reglement_non_autorise
    else if not (is_open s.statut)
    then deny (statut_invalide s.statut)
    else if is_sinistres_agent role && ltb threshold s.montant_eur
    then deny au_dessus_seuil
    else if ltb (plafond role max_amount threshold) s.montant_eur
    then deny (depasse_plafond s.montant_eur (plafond role max_amount threshold))
    else if s.compliance_bloque
    then deny dossier_bloque
    else allow_decision

unfoldable pub evaluate_claim_reject : Option SinistreRow → Role → PolicyDecision
evaluate_claim_reject none role =
    if not (is_ceo role) then deny refus_reserve_au_ceo else deny sinistre_introuvable
evaluate_claim_reject (some s) role =
    if not (is_ceo role)
    then deny refus_reserve_au_ceo
    else if s.statut == "regle" || s.statut == "cloture"
    then deny (statut_invalide s.statut)
    else allow_decision

unfoldable pub evaluate_pricing_exception : ℕ → Role → PolicyDecision
evaluate_pricing_exception new_prime role =
    if not (is_ceo role)
    then deny exception_reservee_au_ceo
    else if leb new_prime 0
    then deny prime_invalide
    else allow_decision

unfoldable pub evaluate_killswitch_activate : Option KillSwitchRow → Role → PolicyDecision
evaluate_killswitch_activate k role =
    if not (is_ceo role)
    then deny killswitch_reserve_au_ceo
    else if is_locked k
    then deny killswitch_deja_actif
    else allow_decision

unfoldable pub evaluate_killswitch_deactivate : Option KillSwitchRow → Role → PolicyDecision
evaluate_killswitch_deactivate k role =
    if not (is_ceo role)
    then deny killswitch_reserve_au_ceo
    else if not (is_locked k)
    then deny killswitch_deja_inactif
    else allow_decision

unfoldable pub evaluate_finance_request : Role → PolicyDecision
evaluate_finance_request ceo = allow_decision
evaluate_finance_request finance = allow_decision
evaluate_finance_request conformite = allow_decision
evaluate_finance_request _ = deny rapport_reserve

-- The `switch` of `evaluate`.
unfoldable pub evaluate_type : Command → PolicyContext → Role → PolicyDecision
unfolding evaluate_claim_approve evaluate_claim_reject evaluate_pricing_exception
    evaluate_killswitch_activate evaluate_killswitch_deactivate evaluate_finance_request
evaluate_type (claim_settlement_approve _ max_amount _ _ _) ctx role =
    evaluate_claim_approve max_amount ctx.sinistre ctx.threshold_eur role
evaluate_type (claim_settlement_reject _ _ _ _) ctx role = evaluate_claim_reject ctx.sinistre role
evaluate_type (policy_pricing_exception_approve _ new_prime _ _ _) ctx role =
    evaluate_pricing_exception new_prime role
evaluate_type (agent_killswitch_activate _ _ _) ctx role =
    evaluate_killswitch_activate ctx.kill_switch role
evaluate_type (agent_killswitch_deactivate _ _ _) ctx role =
    evaluate_killswitch_deactivate ctx.kill_switch role
evaluate_type (finance_report_request _ _ _ _) ctx role = evaluate_finance_request role

unfoldable pub evaluate : Command → PolicyContext → Role → PolicyDecision
unfolding evaluate_type
evaluate cmd ctx role =
    if is_locked ctx.kill_switch && not (is_deactivate cmd)
    then deny killswitch_bloquee
    else if ctx.command_consumed
    then deny deja_consommee
    else evaluate_type cmd ctx role

-- `requiresCeo`, on the type of a command
unfoldable pub requires_ceo : Command → Bool
requires_ceo (claim_settlement_reject _ _ _ _) = true
requires_ceo (policy_pricing_exception_approve _ _ _ _ _) = true
requires_ceo (agent_killswitch_activate _ _ _) = true
requires_ceo (agent_killswitch_deactivate _ _ _) = true
requires_ceo _ = false
