-- ===== src/Pipeline/Checks.antt =====
-- Steps 1 to 4 of `runPipeline` (buzz-hermes-bridge/src/pipeline.ts): the schema, a first look at
-- idempotence, the author's role, the kill-switch and the policy. Nothing but the audit log is written.
use assurance_toto.Prelude.{
  String, Bool, false, not, Option, none, some, [], ◌∷◌, ◌&&◌, member, if◌then◌else◌, template,
  join,
}
use assurance_toto.Json.{Json, null, str, object, texts}
use assurance_toto.Commands.{Command, Validated, valid, invalid, validate_command}
use assurance_toto.Policy.{
  Role, PolicyContext, PolicyDecision, evaluate, reason_code, is_locked, is_deactivate,
}
use assurance_toto.Exec.{Exec, pipeline_error, killswitch_blocked, pure, throw, ◌>>=◌, ◌>>◌}
use assurance_toto.Rows.{consumed, SinistreRow, KillSwitchRow}
use assurance_toto.Pipeline.Types.{
  Deps, World, Envelope, PipelineResult, on_db, safe_audit, deny_result, parse_content,
  command_id_of_env, resolve_role, author_hex, role_text, is_claim, claim_id_of,
}

pub data Admission : Type 0 where
  early : PipelineResult → Admission
  admitted : Command → Role → Admission

abbrev pub holder : Option KillSwitchRow → Json
holder none = null
holder (some k) = elim k.active_par [ none ↦ null | some by ↦ str by ]

module _ {S P : Type 0} (deps : Deps S P) (env : Envelope) (correlation_id : String) where
  abbrev pub consumed_result : PipelineResult
  consumed_result = record {
    correlation_id = correlation_id;
    outcome = consumed;
    reason = "idempotence:commande_deja_consommee";
    command_id = command_id_of_env deps env;
    audit_hash = none;
    effect = none;
    returns_to_channel = env.channel_uuid;
  }

  -- An audited refusal.
  abbrev pub refuse : String → Json → PipelineResult → Exec (World S P) Admission
  refuse action payload result = do
    safe_audit deps correlation_id action payload
    pure (early result)

  abbrev pub decided : Command → Role → PolicyDecision → Exec (World S P) Admission
  decided command role policy =
      if not policy.allowed
      then refuse "command.policy_denied"
          (object
            (("reason", str (reason_code policy.reason)) ∷ ("role", str (role_text role)) ∷ []))
          (deny_result deps env correlation_id (reason_code policy.reason))
      else pure (admitted command role)

  abbrev pub context : Option KillSwitchRow → Option SinistreRow → Bool → PolicyContext
  context kill_switch sinistre already = record {
    kill_switch = kill_switch;
    sinistre = sinistre;
    command_consumed = already;
    approbation = none;
    threshold_eur = deps.threshold_eur;
  }

  abbrev pub find_claim : Command → Exec (World S P) (Option SinistreRow)
  find_claim command =
      if is_claim command then on_db (deps.repo.find_sinistre (claim_id_of command)) else pure none

  -- Step 4.
  unfoldable pub check_policy : Command → Role → Option KillSwitchRow → Exec (World S P) Admission
  check_policy command role kill_switch = do
    sinistre ← find_claim command
    already ← on_db (deps.repo.is_command_consumed (command_id_of_env deps env))
    decided command role (evaluate command (context kill_switch sinistre already) role)

  abbrev pub unless_locked : Command → Role → Option KillSwitchRow → Exec (World S P) Admission
  unless_locked command role kill_switch =
      if is_locked kill_switch && not (is_deactivate command)
      then (do
        safe_audit deps correlation_id "command.killswitch_blocked"
            (object (("actif_par", holder kill_switch) ∷ []))
        throw (pipeline_error killswitch_blocked "kill-switch active: execution refused" false))
      else check_policy command role kill_switch

  -- Step 3, with the kill-switch.
  unfoldable pub check_author : Command → Exec (World S P) Admission
  check_author command =
      if not env.signed && member (author_hex deps env) deps.ceo_pubkeys_hex
      then refuse "command.auth_denied" (object (("reason", str "rbac:ceo_sans_signature") ∷ []))
          (deny_result deps env correlation_id "rbac:ceo_sans_signature")
      else do
        kill_switch ← on_db deps.repo.get_kill_switch
        unless_locked command (resolve_role deps env) kill_switch

  abbrev pub unless_consumed : Command → Bool → Exec (World S P) Admission
  unless_consumed command already =
      if already
      then refuse "command.idempotent_refuse_precheck"
          (object (("command_id", str (command_id_of_env deps env)) ∷ [])) consumed_result
      else check_author command

  -- Step 2.
  unfoldable pub check_fresh : Command → Exec (World S P) Admission
  check_fresh command = do
    already ← on_db (deps.repo.is_command_consumed (command_id_of_env deps env))
    unless_consumed command already

  abbrev pub by_validity : Validated → Exec (World S P) Admission
  by_validity (invalid errors) =
      refuse "command.schema_invalid" (object (("errors", texts errors) ∷ [])) (
        deny_result deps env correlation_id (template ("schema.invalid: " ∷ join "; " errors ∷ [])))
  by_validity (valid command _) = check_fresh command

  -- Steps 1 to 4.
  unfoldable pub admit : Exec (World S P) Admission
  admit = by_validity (validate_command deps.schema_errors (parse_content deps env.content))
