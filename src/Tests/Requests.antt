-- ===== src/Tests/Requests.antt =====
-- The POST handlers of buzz-hermes-bridge/src/http/server.ts on the small company.
use assurance_toto.Prelude.{
  ℕ, Bool, true, false, Option, none, some, ◌≡◌, refl, member, lookup, is_hex64, trim,
  to_lower_case, if◌then◌else◌, ◌==◌,
}
use assurance_toto.Json.{stringify}
use assurance_toto.Commands.{validate_command, get_schema, as_command}
use assurance_toto.Commands.Keywords.{conforms, matches_npub}
use assurance_toto.Policy.{requires_ceo}
use assurance_toto.Exec.Keeps.{Keeps}
use assurance_toto.Identity.{SignedEvent, safe_normalize_hex}
use assurance_toto.Repository.Memory.{MemoryState}
use assurance_toto.Repository.Memory.Views.{business}
use assurance_toto.Pipeline.Types.{Deps, parse_content}
use assurance_toto.Pipeline.InMemory.{in_memory}
use assurance_toto.Http.{
  CommandBody, DecideBody, KillswitchBody, ApprobationBody, post_commands, post_approvals,
}
use assurance_toto.Http.Authority.{post_commands-unsigned}
use assurance_toto.Http.{Answer}
use assurance_toto.Exec.{ok}
use assurance_toto.Http.Pending.{IsAsked, post_approvals-pending}
use assurance_toto.Tests.Fixtures.{
  deps, world, company, stop_json, stop_command, agent_key, ceo_key,
}

abbrev no_check : SignedEvent → Option Bool
no_check ev = none

-- What `JSON.stringify` printed reads back.
abbrev reading : Deps MemoryState ℕ
reading = record deps {
  parse_json = λ text. if text == stringify stop_json then some stop_json else none;
}

abbrev stop_body : CommandBody
stop_body = record {
  command = stop_json;
  author_pubkey = ceo_key;
  event = none;
  channel_uuid = none;
  correlation_id = none;
}

post_commands-unsigned_example :
    business
      (post_commands (in_memory reading) no_check "u" false (some stop_body) (world company)).1.db
    ≡ business company
unfolding parse_content stringify validate_command get_schema as_command conforms lookup
    matches_npub requires_ceo
post_commands-unsigned_example =
    post_commands-unsigned reading no_check "u" false stop_body stop_command _ (world company) refl
      refl refl refl

abbrev asked : ApprobationBody
asked = record {
  type_name = "claim.settlement.approve";
  claim_id = "S-1";
  montant_eur = 900_000;
  reason = "above";
  requested_by = agent_key;
  correlation_id = "c-2";
}

-- The agent of the small company asks.
post_approvals-pending_example :
    (a : Answer) × ((post_approvals (in_memory deps) no_check "u" (some asked) (world company)).0
      ≡ ok a)
    × IsAsked asked agent_key
        (world company)
        (post_approvals (in_memory deps) no_check "u" (some asked) (world company)).1
        a
unfolding safe_normalize_hex is_hex64 trim to_lower_case member
post_approvals-pending_example = post_approvals-pending deps no_check "u" asked (world company)

abbrev refusal : DecideBody
refusal = record { approve = false; reason = "no"; decided_by = ceo_key; event = none }

abbrev stop_request : KillswitchBody
stop_request = record { active = true; decided_by = ceo_key; reason = "stop" }
