-- ===== src/Pipeline.antt =====
-- buzz-hermes-bridge/src/pipeline.ts: a command from its envelope to its effect. `runPipeline` is cut
-- where it goes from deciding to acting: `admit` is steps 1 to 4, `perform` is steps 5 to 8.
pub mod Types
pub mod Effects
pub mod Checks
pub mod Execution
pub mod ReadOnly
pub mod Once
pub mod Progress
pub mod Growth
pub mod Total
pub mod Performed
pub mod Books
pub mod Booked
pub mod Guards
pub mod InMemory
pub mod Safety
pub mod Authority
pub mod Refusals
use assurance_toto.Prelude.{
  String, Bool, true, false, Option, none, some, List, [], ◌∷◌, or_else, ◌||◌, includes,
  if◌then◌else◌,
}
use assurance_toto.Json.{Json, str, object}
use assurance_toto.Exec.{
  Exec, Thrown, pipeline_error, other_error, db_unavailable, effect_failed, ErrorCode, pure, throw,
  catch, ◌>>=◌, ◌>>◌,
}
use assurance_toto.Rows.{dlq}
use assurance_toto.Pipeline.Types.{
  Deps, World, Envelope, PipelineResult, enqueue_entry, safe_audit, command_id_of_env, code_text,
}
use assurance_toto.Pipeline.Checks.{Admission, early, admitted, admit}
use assurance_toto.Pipeline.Execution.{perform}

-- The pattern of `toPipelineError` for an error of the connection.
unfoldable pub is_transient : String → Bool
is_transient m =
    includes m "ETIMEDOUT"
    || includes m "ECONNREFUSED"
    || includes m "ECONNRESET"
    || includes m "57P"
    || includes m "08P"

pub record PipelineError : Type 0 where
  pub code : ErrorCode
  pub message : String
  pub retryable : Bool

unfoldable pub to_pipeline_error : Thrown → PipelineError
unfolding is_transient
to_pipeline_error (pipeline_error code message retryable) = record {
  code = code;
  message = message;
  retryable = retryable;
}
to_pipeline_error (other_error message) =
    if is_transient message
    then record { code = db_unavailable; message = message; retryable = true }
    else record { code = effect_failed; message = message; retryable = false }

-- `rawOf`
abbrev raw_of : Envelope → Json
raw_of env = object (
    ("eventId", str env.event_id)
    ∷ ("authorPubkey", str env.author_pubkey)
    ∷ ("content", str env.content)
    ∷ ("channelUuid", str env.channel_uuid)
    ∷ [])

module _ {S P : Type 0} (deps : Deps S P) where
  abbrev pub after_admission : Envelope → String → Admission → Exec (World S P) PipelineResult
  after_admission env correlation_id (early result) = pure result
  after_admission env correlation_id (admitted command role) =
      perform deps env correlation_id command role

  unfoldable pub run_pipeline : Envelope → String → Exec (World S P) PipelineResult
  run_pipeline env correlation_id = do
    admission ← admit deps env correlation_id
    after_admission env correlation_id admission

  -- What `catch` does with an error that no retry can mend.
  unfoldable pub dead_letter : Envelope → String → PipelineError → Exec (World S P) PipelineResult
  dead_letter env correlation_id pe = do
    enqueue_entry deps (record {
      command_id = env.event_id;
      correlation_id = correlation_id;
      reason = pe.message;
      payload = raw_of env;
      attempts = 1;
      enqueued_at = deps.now;
    })
    safe_audit deps correlation_id "command.dlq"
        (object (("code", str (code_text pe.code)) ∷ ("reason", str pe.message) ∷ []))
    pure (record {
      correlation_id = correlation_id;
      outcome = dlq;
      reason = pe.message;
      command_id = command_id_of_env deps env;
      audit_hash = none;
      effect = none;
      returns_to_channel = env.channel_uuid;
    })

  unfoldable pub recover : Envelope → String → Thrown → Exec (World S P) PipelineResult
  recover env correlation_id err =
      let pe : PipelineError = to_pipeline_error err in
      if pe.retryable
      then throw (pipeline_error pe.code pe.message pe.retryable)
      else dead_letter env correlation_id pe

  unfoldable pub process_inbound_command : Envelope → Exec (World S P) PipelineResult
  process_inbound_command env =
      let correlation_id : String = or_else env.correlation_id deps.fresh_id in
      catch (run_pipeline env correlation_id) (recover env correlation_id)
