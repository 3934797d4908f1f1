-- ===== src/Http.antt =====
-- The POST handlers of buzz-hermes-bridge/src/http/server.ts: commands, approval requests, decisions
-- and the kill-switch. A body is `none` where zod refuses it; `randomUUID` and the Schnorr check are
-- parameters. An answer is its HTTP code and what it carries.
pub mod Authority
pub mod Pending
pub mod History
use assurance_toto.Prelude.{
  ℕ, ◌*◌, String, Bool, true, false, not, ◌&&◌, ◌||◌, Option, none, some, [], ◌∷◌, pos, member,
  or_else, template, take_chars, to_lower_case, ◌==◌, if◌then◌else◌,
}
use assurance_toto.Json.{Json, null, num, str, object, stringify}
use assurance_toto.Commands.{Command, Validated, valid, invalid, validate_command}
use assurance_toto.Policy.{requires_ceo}
use assurance_toto.Exec.{ok, Exec, pure, ◌>>=◌, ◌>>◌}
use assurance_toto.Rows.{ApprobationRow, Amount, eur, not_a_number, Outcome, denied}
use assurance_toto.Identity.{
  SignedEvent, SigVerify, verified, rejected, verify_signed_event_for_command, safe_normalize_hex,
}
use assurance_toto.Pipeline.{process_inbound_command}
use assurance_toto.Pipeline.Types.{Deps, World, Envelope, PipelineResult, on_db}

-- `HttpCommandBodySchema`
pub record CommandBody : Type 0 where
  pub command : Json
  pub author_pubkey : String
  pub event : Option SignedEvent
  pub channel_uuid : Option String
  pub correlation_id : Option String

-- `HttpDecideBodySchema`
pub record DecideBody : Type 0 where
  pub approve : Bool
  pub reason : String
  pub decided_by : String
  pub event : Option SignedEvent

-- `HttpKillswitchBodySchema`
pub record KillswitchBody : Type 0 where
  pub active : Bool
  pub decided_by : String
  pub reason : String

-- `HttpApprobationCreateSchema`
pub record ApprobationBody : Type 0 where
  pub type_name : String
  pub claim_id : String
  pub montant_eur : ℕ
  pub reason : String
  pub requested_by : String
  pub correlation_id : String

pub data Answer : Type 0 where
  refused : (code : ℕ) (error reason : String) → Answer
  ran : (ok : Bool) (result : PipelineResult) → Answer
  approbation : ApprobationRow → Answer
  switch : (actif : Bool) → Answer
  redirect : (message : String) → Answer

abbrev pub default_channel : String
default_channel = "00000000-0000-1000-8000-000000000001"

abbrev is_denied : Outcome → Bool
is_denied denied = true
is_denied _ = false

-- `JSON.stringify(Number(montant))`: NaN is printed as null.
abbrev amount_json : Amount → Json
amount_json (eur n) = num (pos n)
amount_json not_a_number = null

module _ {S P : Type 0} (deps : Deps S P) (verify_event : SignedEvent → Option Bool)
    (uuid : String) where
  abbrev pub is_ceo_key : String → Bool
  is_ceo_key key = member key deps.ceo_pubkeys_hex

  abbrev pub norm : String → String
  norm key = safe_normalize_hex deps.decode key

  abbrev http_id : String
  http_id = template ("http-" ∷ uuid ∷ [])

  -- The envelope of a command that a body brings.
  abbrev pub envelope_of : CommandBody → String → String → Bool → Envelope
  envelope_of body event_id author signed = record {
    event_id = event_id;
    author_pubkey = author;
    content = stringify body.command;
    correlation_id = body.correlation_id;
    channel_uuid = or_else body.channel_uuid default_channel;
    signed = signed;
  }

  unfoldable pub run_command : Envelope → Exec (World S P) Answer
  run_command env = do
    result ← process_inbound_command deps env
    pure (ran (not (is_denied result.outcome)) result)

  abbrev pub by_event : CommandBody → SignedEvent → SigVerify → Exec (World S P) Answer
  by_event body ev (rejected reason) = pure (refused 401 "signature.invalid" reason)
  by_event body ev (verified author) = run_command (envelope_of body ev.id author true)

  abbrev pub by_signature :
      Bool → CommandBody → Command → Option SignedEvent → Exec (World S P) Answer
  by_signature require_signed body command (some ev) =
      by_event body ev
        (verify_signed_event_for_command deps.parse_json verify_event ev body.command)
  by_signature require_signed body command none =
      if require_signed && requires_ceo command
      then pure (refused 401 "auth:ceo_sans_signature_valide" "")
      else run_command (envelope_of body http_id body.author_pubkey false)

  abbrev pub by_validity : Bool → CommandBody → Validated → Exec (World S P) Answer
  by_validity require_signed body (invalid errors) = pure (refused 400 "schema.invalid" "")
  by_validity require_signed body (valid command _) =
      by_signature require_signed body command body.event

  -- POST /commands
  unfoldable pub post_commands : Bool → Option CommandBody → Exec (World S P) Answer
  post_commands require_signed none = pure (refused 400 "body.invalid" "")
  post_commands require_signed (some body) =
      by_validity require_signed body (validate_command deps.schema_errors body.command)

  abbrev create : ApprobationBody → String → Exec (World S P) Answer
  create body requester = do
    row ← on_db (
        deps.repo.create_approbation body.correlation_id body.type_name (some body.claim_id)
          (some (eur body.montant_eur)) (some body.reason) (some requester))
    pure (approbation row)

  -- POST /approvals
  unfoldable pub post_approvals : Option ApprobationBody → Exec (World S P) Answer
  post_approvals none = pure (refused 400 "body.invalid" "")
  post_approvals (some body) =
      let requester : String = norm body.requested_by in
      if not (is_ceo_key requester || member requester deps.allowed_unsigned_roles_hex)
      then pure (refused 403 "forbidden" "auteur_non_allowliste")
      else create body requester

  -- The command that carries out an approved settlement.
  abbrev execution_json : ApprobationRow → Amount → String → String → Json
  execution_json row montant reason by = object (
      ("type", str "claim.settlement.approve")
      ∷ ("claim_id", str (or_else row.claim_id row.correlation_id))
      ∷ ("max_amount_eur", amount_json montant)
      ∷ (
        "reason",
        str (template ("Execution after CEO approval “ " ∷ take_chars 100 reason ∷ " ”" ∷ [])),
      )
      ∷ ("approved_by", str by)
      ∷ ("requested_at", str deps.now)
      ∷ [])

  abbrev pub execution_envelope : String → String → ApprobationRow → Amount → String → Envelope
  execution_envelope correlation_id reason row montant by = record {
    event_id = http_id;
    author_pubkey = by;
    content = stringify (execution_json row montant reason by);
    correlation_id = some correlation_id;
    channel_uuid = default_channel;
    signed = true;
  }

  abbrev pub execute_approved :
      String
      → DecideBody
      → String
      → ApprobationRow
      → Option Amount
      → Exec (World S P) ApprobationRow
  execute_approved correlation_id body by row none = pure row
  execute_approved correlation_id body by row (some montant) =
      if body.approve && row.type_name == "claim.settlement.approve"
      then (do
        exec ←
            process_inbound_command deps
              (execution_envelope correlation_id body.reason row montant by)
        on_db (λ s. (ok tt, deps.repo.note_execution correlation_id exec.outcome s))
        pure (record row { execution = some exec.outcome }))
      else pure row

  abbrev decided_text : Bool → String
  decided_text true = "Request approved"
  decided_text false = "Request denied"

  abbrev answer_decision : Bool → Bool → ApprobationRow → Answer
  answer_decision html approve row =
      if html then redirect (decided_text approve) else approbation row

  abbrev pub after_decision :
      Bool → String → DecideBody → String → Option ApprobationRow → Exec (World S P) Answer
  after_decision html correlation_id body by none =
      if html
      then pure (redirect "Decision refused: already processed or not found")
      else pure (refused 409 "already_decided_or_missing" "")
  after_decision html correlation_id body by (some row) = do
    updated ← execute_approved correlation_id body by row row.montant_eur
    pure (answer_decision html body.approve updated)

  abbrev pub decide_as : Bool → String → DecideBody → String → Exec (World S P) Answer
  decide_as html correlation_id body decided_by =
      if not (is_ceo_key (norm decided_by))
      then pure (refused 403 "forbidden" "decision_reservee_au_CEO")
      else (do
        updated ←
            on_db (
              deps.repo.decide_approbation correlation_id (norm decided_by) body.reason
                body.approve)
        after_decision html correlation_id body (norm decided_by) updated)

  abbrev pub by_decider :
      Bool → String → DecideBody → SignedEvent → Option Bool → Exec (World S P) Answer
  by_decider html correlation_id body ev (some true) =
      decide_as html correlation_id body (to_lower_case ev.pubkey)
  by_decider html correlation_id body ev _ = pure (refused 401 "signature.invalid" "")

  abbrev pub decide_by_event :
      Bool → String → DecideBody → Option SignedEvent → Exec (World S P) Answer
  decide_by_event html correlation_id body none = decide_as html correlation_id body body.decided_by
  decide_by_event html correlation_id body (some ev) =
      by_decider html correlation_id body ev (verify_event ev)

  -- POST /approvals/:correlationId/decide; `html` is `wantsHtml`.
  unfoldable pub post_decide : Bool → String → Option DecideBody → Exec (World S P) Answer
  post_decide html correlation_id none = pure (refused 400 "body.invalid" "")
  post_decide html correlation_id (some body) = decide_by_event html correlation_id body body.event

  abbrev pub killswitch_envelope : KillswitchBody → String → Envelope
  killswitch_envelope body by = record {
    event_id = http_id;
    author_pubkey = by;
    content = stringify (
        object (
          (
            "type",
            str (
                if body.active then "agent.killswitch.activate" else "agent.killswitch.deactivate"),
          )
          ∷ ("approved_by", str by)
          ∷ ("reason", str body.reason)
          ∷ ("requested_at", str deps.now)
          ∷ []));
    correlation_id = none;
    channel_uuid = default_channel;
    signed = false;
  }

  abbrev switched_text : Bool → String
  switched_text true = "Kill-switch ACTIVATED"
  switched_text false = "Kill-switch deactivated"

  -- POST /killswitch
  unfoldable pub post_killswitch : Bool → Option KillswitchBody → Exec (World S P) Answer
  post_killswitch html none = pure (refused 400 "body.invalid" "")
  post_killswitch html (some body) =
      let by : String = norm body.decided_by in
      if not (is_ceo_key by)
      then pure (refused 403 "forbidden" "killswitch_reserve_au_CEO")
      else (do
        on_db (deps.repo.set_kill_switch body.active by)
        process_inbound_command deps (killswitch_envelope body by)
        pure (if html then redirect (switched_text body.active) else switch body.active))
