-- ===== src/Pipeline/Execution.antt =====
-- Steps 5 to 8 of `runPipeline` (buzz-hermes-bridge/src/pipeline.ts): the atomic mark, the audit row,
-- the business effect in a transaction, the approval and the message back.
use assurance_toto.Prelude.{
  ℕ, zero, suc, String, Bool, true, false, Option, none, some, [], ◌∷◌, if◌then◌else◌, template,
}
use assurance_toto.Json.{Json, str, object}
use assurance_toto.Commands.{
  Command, claim_settlement_approve, claim_settlement_reject, type_name, approved_by,
}
use assurance_toto.Policy.{Role}
use assurance_toto.Exec.{Exec, pure, catch, ◌>>=◌, ◌>>◌}
use assurance_toto.Rows.{executed}
use assurance_toto.Repository.{Reply, count_row, in_transaction, insert_consumed, link_approbation}
use assurance_toto.Pipeline.Types.{
  Deps, World, Envelope, PipelineResult, on_db, on_posted, append, safe_audit, command_id_of_env,
  role_text, is_claim, claim_id_of,
}
use assurance_toto.Pipeline.Effects.{business_effect, command_json, render_outbound_text}
use assurance_toto.Pipeline.Checks.{consumed_result}

-- `Number(r.rows[0]?.n ?? '0')`
abbrev pub inserted : Reply → ℕ
inserted (count_row n) = n
inserted _ = 0

-- `command.type === 'claim.settlement.approve' ? command.max_amount_eur : null`
abbrev pub linked_amount : Command → Option ℕ
linked_amount (claim_settlement_approve _ max_amount _ _ _) = some max_amount
linked_amount _ = none

module _ {S P : Type 0} (deps : Deps S P) where
  abbrev pub link_claim : String → Command → Exec (World S P) Bool
  link_claim correlation_id command =
      if is_claim command
      then (do
        on_db (
            in_transaction deps.repo (
              deps.repo.query (
                link_approbation correlation_id (type_name command) (claim_id_of command)
                  (linked_amount command) (approved_by command))))
        pure true)
      else pure true

  abbrev pub marked : String → Command → ℕ → Exec (World S P) Bool
  marked correlation_id command zero = pure false
  marked correlation_id command (suc n) = link_claim correlation_id command

  -- `markConsumed`
  unfoldable pub mark_consumed : String → String → Command → Exec (World S P) Bool
  mark_consumed command_id correlation_id command = do
    reply ←
        on_db
          (in_transaction deps.repo (deps.repo.query (insert_consumed command_id correlation_id)))
    marked correlation_id command (inserted reply)

  -- Step 7b: only the two claim commands resolve an approval, and a failure is dropped.
  abbrev pub resolve : String → String → String → Bool → Exec (World S P) (Unit {0})
  resolve correlation_id by reason approve =
      catch (on_db (deps.repo.decide_approbation correlation_id by reason approve) >> pure tt)
        (λ err. pure tt)

  unfoldable pub resolve_approbation : String → Command → Exec (World S P) (Unit {0})
  resolve_approbation c (claim_settlement_approve _ _ reason by _) = resolve c by reason true
  resolve_approbation c (claim_settlement_reject _ reason by _) = resolve c by reason false
  resolve_approbation c _ = pure tt

  module _ (env : Envelope) (correlation_id : String) (command : Command) (role : Role) where
    -- Step 8.
    unfoldable pub answer_channel : String → Json → Exec (World S P) PipelineResult
    answer_channel hash effect = do
      event_id ←
          catch
            (on_posted (
              deps.post_message env.channel_uuid
                (render_outbound_text command correlation_id effect) correlation_id))
            (λ err. pure deps.local_event_id)
      safe_audit deps correlation_id "command.executed"
          (object (("effect", effect) ∷ ("event_id", str event_id) ∷ []))
      pure (record {
        correlation_id = correlation_id;
        outcome = executed;
        reason = "ok";
        command_id = command_id_of_env deps env;
        audit_hash = some hash;
        effect = some effect;
        returns_to_channel = env.channel_uuid;
      })

    -- Steps 6 to 8, once the command is marked.
    unfoldable pub act : Exec (World S P) PipelineResult
    act = do
      hash ← append deps correlation_id (template ("command." ∷ type_name command ∷ [])) (
          object (
            ("command_id", str (command_id_of_env deps env))
            ∷ ("role", str (role_text role))
            ∷ ("author", str env.author_pubkey)
            ∷ ("command", command_json command)
            ∷ []))
      effect ← on_db (
          in_transaction deps.repo
            (business_effect deps.repo deps.threshold_eur correlation_id command))
      resolve_approbation correlation_id command
      answer_channel hash effect

    abbrev pub once_marked : Bool → Exec (World S P) PipelineResult
    once_marked true = act
    once_marked false = do
      safe_audit deps correlation_id "command.idempotent_refuse"
          (object (("command_id", str (command_id_of_env deps env)) ∷ []))
      pure (consumed_result deps env correlation_id)

    -- Steps 5 to 8.
    unfoldable pub perform : Exec (World S P) PipelineResult
    perform = do
      is_consumed ← mark_consumed (command_id_of_env deps env) correlation_id command
      once_marked is_consumed
