-- ===== src/Tests/Fixtures.antt =====
-- A small company for the tests of buzz-hermes-bridge: its keys, claims, configuration and commands.
use assurance_toto.Prelude.{
  String, Bool, true, false, Option, none, some, List, [], ◌∷◌, ℕ, pos, ◌==◌, if◌then◌else◌,
}
use assurance_toto.Json.{Json, str, num, object}
use assurance_toto.Commands.{Command, claim_settlement_approve, agent_killswitch_activate}
use assurance_toto.Commands.Keywords.{Schema, conforms}
use assurance_toto.Exec.{ok}
use assurance_toto.Identity.{Decoded}
use assurance_toto.Rows.{SinistreRow}
use assurance_toto.Repository.Memory.{MemoryState, memory_repository}
use assurance_toto.Pipeline.Types.{Deps, World, Envelope}

abbrev pub ceo_key : String
ceo_key = "aaaaaaaaaaaaaaaaaaaaaaaaaaaaaaaaaaaaaaaaaaaaaaaaaaaaaaaaaaaaaaaa"

abbrev pub agent_key : String
agent_key = "bbbbbbbbbbbbbbbbbbbbbbbbbbbbbbbbbbbbbbbbbbbbbbbbbbbbbbbbbbbbbbbb"

abbrev pub noon : String
noon = "2026-01-01T12:00:00Z"

-- The contents of the messages, and what `JSON.parse` makes of them.
abbrev pub settle_text : String
settle_text = "settle"

abbrev pub stop_text : String
stop_text = "stop"

abbrev pub settle_json : Json
settle_json = object (
    ("type", str "claim.settlement.approve")
    ∷ ("claim_id", str "S-1")
    ∷ ("max_amount_eur", num (pos 200_000))
    ∷ ("reason", str "ok")
    ∷ ("approved_by", str agent_key)
    ∷ ("requested_at", str noon)
    ∷ [])

abbrev pub settle_command : Command
settle_command = claim_settlement_approve "S-1" 200_000 "ok" agent_key noon

abbrev pub stop_json : Json
stop_json = object (
    ("type", str "agent.killswitch.activate")
    ∷ ("approved_by", str ceo_key)
    ∷ ("reason", str "stop")
    ∷ ("requested_at", str noon)
    ∷ [])

abbrev pub stop_command : Command
stop_command = agent_killswitch_activate ceo_key "stop" noon

abbrev pub read_json : String → Option Json
read_json text =
    if text == "settle" then some settle_json else if text == "stop" then some stop_json else none

abbrev pub any_date : String → Bool
any_date s = true

abbrev pub ajv_errors : Schema → List (String × Json) → List String
ajv_errors s o = if conforms any_date s o then [] else "invalid" ∷ []

abbrev pub no_nip19 : String → Option Decoded
no_nip19 s = none

abbrev pub same_text : String → String
same_text s = s

abbrev pub claim : SinistreRow
claim = record { id = "S-1"; statut = "ouvert"; montant_eur = 150_000; compliance_bloque = false }

abbrev pub company : MemoryState
company = record {
  sinistres = ("S-1", claim) ∷ [];
  kill_switch = none;
  consumed = [];
  audit = [];
  pnl = [];
  pnl_created_at = [];
  pnl_latest = none;
  approbations = [];
}

abbrev pub locked_company : MemoryState
locked_company = record company {
  kill_switch = some (record { id = 1; actif = true; active_par = none; active_le = none });
}

abbrev pub settled_company : MemoryState
settled_company = record company { consumed = "settle" ∷ [] }

-- The adapter counts the messages that it has sent.
abbrev pub deps : Deps MemoryState ℕ
deps = record {
  repo = memory_repository noon;
  post_message = λ channel text correlation sent. (ok "null-1", ℕ.suc sent);
  sha256 = same_text;
  parse_json = read_json;
  schema_errors = ajv_errors;
  decode = no_nip19;
  threshold_eur = 500_000;
  ceo_pubkeys_hex = ceo_key ∷ [];
  allowed_unsigned_roles_hex = agent_key ∷ [];
  now = noon;
  fresh_id = "c-1";
  local_event_id = "local-1";
}

abbrev pub world : MemoryState → World MemoryState ℕ
world st = record { db = st; dlq = []; posted = 0 }

abbrev pub envelope : String → String → Bool → Envelope
envelope author content signed = record {
  event_id = "e-1";
  author_pubkey = author;
  content = content;
  correlation_id = none;
  channel_uuid = "canal";
  signed = signed;
}
