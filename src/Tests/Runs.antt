-- ===== src/Tests/Runs.antt =====
-- `processInboundCommand` of buzz-hermes-bridge/src/pipeline.ts on the small company.
use assurance_toto.Prelude.{
  true, false, some, ◌≡◌, refl, ◌⊎◌, member, lookup, is_hex64, trim, to_lower_case, is_lower_hex64,
  includes, template, every_char, insert,
}
use assurance_toto.Commands.{validate_command, get_schema, as_command}
use assurance_toto.Commands.Keywords.{conforms, matches_npub}
use assurance_toto.Policy.{is_locked, requires_ceo, evaluate, evaluate_type, evaluate_claim_approve}
use assurance_toto.Policy.Decisions.{MaySettle}
use assurance_toto.Exec.{ok, catch, ◌>>=◌}
use assurance_toto.Identity.{safe_normalize_hex}
use assurance_toto.Rows.{SinistreRow, executed}
use assurance_toto.Repository.Memory.{memory_query, modify}
use assurance_toto.Repository.Memory.Views.{business, memory-ReadsKeep}
use assurance_toto.Pipeline.{process_inbound_command, run_pipeline}
use assurance_toto.Pipeline.Checks.{admit, check_fresh, check_author, check_policy}
use assurance_toto.Pipeline.Execution.{
  act, answer_channel, mark_consumed, perform, resolve_approbation,
}
use assurance_toto.Pipeline.Effects.{business_effect, settle_claim_effect, render_outbound_text}
use assurance_toto.Audit.{append_audit, compute_audit_hash, read_last_hash}
use assurance_toto.Repository.{in_transaction, sql}
use assurance_toto.Pipeline.Types.{
  PipelineResult, append, safe_audit, on_db, on_posted, parse_content, command_id_of_env,
  resolve_role,
}
use assurance_toto.Pipeline.Total.{run, DidNoHarm, Executed, process-total}
use assurance_toto.Pipeline.Once.{process-once, process-settles}
use assurance_toto.Pipeline.Guards.{process-consumed, process-locked}
use assurance_toto.Pipeline.Safety.{Harmless, process-ceo_only, process-forged}
use assurance_toto.Pipeline.InMemory.{in_memory}
use assurance_toto.Tests.Fixtures.{
  deps, world, envelope, company, locked_company, settled_company, settle_command, stop_command,
  agent_key, ceo_key, noon,
}

process-total_example :
    DidNoHarm deps (envelope agent_key "settle" false) (world company)
    ⊎ Executed deps (envelope agent_key "settle" false) (world company)
process-total_example = process-total deps (envelope agent_key "settle" false) (world company)

process-consumed_example :
    Harmless business (in_memory deps) (memory-ReadsKeep noon) (world settled_company) (
      process_inbound_command
        (in_memory deps)
        (envelope agent_key "settle" false)
        (world settled_company))
unfolding command_id_of_env member
process-consumed_example =
    process-consumed deps (envelope agent_key "settle" false) (world settled_company) refl

process-locked_example :
    Harmless business (in_memory deps) (memory-ReadsKeep noon) (world locked_company) (
      process_inbound_command
        (in_memory deps)
        (envelope agent_key "settle" false)
        (world locked_company))
unfolding parse_content validate_command get_schema as_command conforms lookup matches_npub
process-locked_example =
    process-locked deps (envelope agent_key "settle" false) (world locked_company) settle_command _
      refl refl refl

process-ceo_only_example :
    Harmless business
      (in_memory deps)
      (memory-ReadsKeep noon)
      (world company)
      (process_inbound_command (in_memory deps) (envelope agent_key "stop" true) (world company))
unfolding parse_content validate_command get_schema as_command conforms lookup matches_npub
    requires_ceo member safe_normalize_hex is_hex64 trim to_lower_case
process-ceo_only_example =
    process-ceo_only business (in_memory deps) (memory-ReadsKeep noon)
      (envelope agent_key "stop" true) (world company) stop_command _ refl refl refl

process-forged_example :
    Harmless business
      (in_memory deps)
      (memory-ReadsKeep noon)
      (world company)
      (process_inbound_command (in_memory deps) (envelope ceo_key "stop" false) (world company))
unfolding member safe_normalize_hex is_hex64 trim to_lower_case
process-forged_example =
    process-forged business (in_memory deps) (memory-ReadsKeep noon) (envelope ceo_key "stop" false)
      (world company) refl refl

-- The agent's settlement within its threshold is executed.
settled :
    (result : PipelineResult) × ((run deps (envelope agent_key "settle" false) (world company)).0
      ≡ ok result)
    × (result.outcome ≡ executed)
unfolding process_inbound_command run_pipeline admit check_fresh check_author check_policy on_db
    on_posted catch in_transaction parse_content command_id_of_env resolve_role validate_command
    get_schema as_command conforms lookup matches_npub requires_ceo member safe_normalize_hex
    is_hex64 trim to_lower_case is_lower_hex64 append append_audit compute_audit_hash read_last_hash
    business_effect render_outbound_text settle_claim_effect act answer_channel mark_consumed
    perform resolve_approbation safe_audit evaluate evaluate_type evaluate_claim_approve includes
    template memory_query sql ◌>>=◌ every_char modify insert
settled = (_, refl, refl)

process-once_example :
    DidNoHarm deps
      (envelope ceo_key "settle" true)
      (run deps (envelope agent_key "settle" false) (world company)).1
process-once_example =
    process-once deps (envelope agent_key "settle" false) (world company) settled.0
      (envelope ceo_key "settle" true) settled.1 settled.2 refl

process-settles_example :
    (s : SinistreRow) × (lookup "S-1" company.sinistres ≡ some s)
    × MaySettle 200_000 s 500_000
        (resolve_role (in_memory deps) (envelope agent_key "settle" false))
    × (is_locked company.kill_switch ≡ false)
unfolding parse_content validate_command get_schema as_command conforms lookup matches_npub
process-settles_example =
    process-settles deps (envelope agent_key "settle" false) (world company) settled.0 "S-1" 200_000
      "ok" agent_key noon _ refl settled.1 settled.2
