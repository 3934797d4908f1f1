-- ===== src/Pipeline/Types.antt =====
-- The types and the small helpers of buzz-hermes-bridge/src/pipeline.ts. `Deps` holds what the
-- pipeline is given: the repository, the collaboration adapter, the libraries, the configuration, and
-- the values that the clock and `randomUUID` give to one request.
use assurance_toto.Prelude.{
  ℕ, String, Bool, true, false, Option, none, List, or_else, member, not, ◌&&◌, if◌then◌else◌,
}
use assurance_toto.Json.{Json, null}
use assurance_toto.Commands.{Command, claim_settlement_approve, claim_settlement_reject}
use assurance_toto.Commands.Keywords.{Schema}
use assurance_toto.Policy.{
  Role, ceo, conformite, finance, agent_sales, agent_souscription, agent_sinistres, inconnu,
}
use assurance_toto.Exec.{
  Exec, Result, ErrorCode, schema_invalid, signature_invalid, policy_denied, idempotence_consumed,
  killswitch_blocked, db_unavailable, collab_unavailable, effect_failed, ok, pure, catch, ◌>>◌,
}
use assurance_toto.Rows.{Outcome, denied}
use assurance_toto.Repository.{Repository}
use assurance_toto.Audit.{append_audit}
use assurance_toto.Identity.{Decoded, safe_normalize_hex}
use assurance_toto.Dlq.{DlqEntry, enqueue}

pub record Deps (S P : Type 0) : Type 0 where
  pub repo : Repository S
  -- `adapter.postMessage`, with the event's id
  pub post_message : (channel_uuid text correlation_id : String) → Exec P String
  pub sha256 : String → String
  pub parse_json : String → Option Json
  pub schema_errors : Schema → List (String × Json) → List String
  pub decode : String → Option Decoded
  pub threshold_eur : ℕ
  pub ceo_pubkeys_hex : List String
  pub allowed_unsigned_roles_hex : List String
  pub now : String
  pub fresh_id : String
  pub local_event_id : String

-- The store, the dead-letter queue and the adapter's own state.
pub record World (S P : Type 0) : Type 0 where
  pub db : S
  pub dlq : List DlqEntry
  pub posted : P

-- `InboundCommandEnvelope`
pub record Envelope : Type 0 where
  pub event_id : String
  pub author_pubkey : String
  pub content : String
  pub correlation_id : Option String
  pub channel_uuid : String
  pub signed : Bool

pub record PipelineResult : Type 0 where
  pub correlation_id : String
  pub outcome : Outcome
  pub reason : String
  pub command_id : String
  pub audit_hash : Option String
  pub effect : Option Json
  pub returns_to_channel : String

abbrev pub role_text : Role → String
role_text ceo = "ceo"
role_text conformite = "conformite"
role_text finance = "finance"
role_text agent_sales = "agent-sales"
role_text agent_souscription = "agent-souscription"
role_text agent_sinistres = "agent-sinistres"
role_text inconnu = "inconnu"

abbrev pub code_text : ErrorCode → String
code_text schema_invalid = "schema.invalid"
code_text signature_invalid = "signature.invalid"
code_text policy_denied = "policy.denied"
code_text idempotence_consumed = "idempotence.consumed"
code_text killswitch_blocked = "killswitch.blocked"
code_text db_unavailable = "db.unavailable"
code_text collab_unavailable = "collab.unavailable"
code_text effect_failed = "effect.failed"

-- `command.type.startsWith('claim.')`
abbrev pub is_claim : Command → Bool
is_claim (claim_settlement_approve _ _ _ _ _) = true
is_claim (claim_settlement_reject _ _ _ _) = true
is_claim _ = false

-- `claimIdOf`
abbrev pub claim_id_of : Command → String
claim_id_of (claim_settlement_approve id _ _ _ _) = id
claim_id_of (claim_settlement_reject id _ _ _) = id
claim_id_of _ = ""

module _ {S P : Type 0} where
  abbrev pub put_db : {A : Type 0} → World S P → Result A × S → Result A × World S P
  put_db w (r, s) = (r, record w { db = s })

  -- An action of the store, in the world.
  unfoldable pub on_db : {A : Type 0} → Exec S A → Exec (World S P) A
  on_db m w = put_db w (m w.db)

  abbrev pub put_posted : {A : Type 0} → World S P → Result A × P → Result A × World S P
  put_posted w (r, p) = (r, record w { posted = p })

  unfoldable pub on_posted : {A : Type 0} → Exec P A → Exec (World S P) A
  on_posted m w = put_posted w (m w.posted)

module _ {S P : Type 0} (deps : Deps S P) where
  -- `commandIdOfEnv`
  unfoldable pub command_id_of_env : Envelope → String
  command_id_of_env env = deps.sha256 env.content

  -- `parseContent`
  unfoldable pub parse_content : String → Json
  parse_content content = or_else (deps.parse_json content) null

  abbrev pub author_hex : Envelope → String
  author_hex env = safe_normalize_hex deps.decode env.author_pubkey

  -- `resolveRole`
  unfoldable pub resolve_role : Envelope → Role
  resolve_role env =
      if env.signed && member (author_hex env) deps.ceo_pubkeys_hex
      then ceo
      else if not env.signed && member (author_hex env) deps.allowed_unsigned_roles_hex
      then agent_sinistres
      else inconnu

  -- `dlq.enqueue`
  unfoldable pub enqueue_entry : DlqEntry → Exec (World S P) (Unit {0})
  enqueue_entry entry w = (ok tt, record w { dlq = enqueue entry w.dlq })

  unfoldable pub append : String → String → Json → Exec (World S P) String
  append correlation_id action payload = on_db (
      append_audit deps.sha256 deps.repo (record {
        correlation_id = correlation_id;
        source = "buzz-hermes-bridge";
        action = action;
        payload = payload;
      }))

  -- `safeAudit`: a failure to append is logged and dropped.
  unfoldable pub safe_audit : String → String → Json → Exec (World S P) (Unit {0})
  safe_audit correlation_id action payload =
      catch (append correlation_id action payload >> pure tt) (λ err. pure tt)

  -- `deny`
  abbrev pub deny_result : Envelope → String → String → PipelineResult
  deny_result env correlation_id reason = record {
    correlation_id = correlation_id;
    outcome = denied;
    reason = reason;
    command_id = command_id_of_env env;
    audit_hash = none;
    effect = none;
    returns_to_channel = env.channel_uuid;
  }
