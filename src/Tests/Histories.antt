-- ===== src/Tests/Histories.antt =====
-- Histories of messages and requests (buzz-hermes-bridge/src/pipeline.ts, http/server.ts) on the small
-- company.
use assurance_toto.Http.History.Growth.{serve_all-Grown}
use assurance_toto.Audit.Growth.{Grown}
use assurance_toto.Prelude.{
  arith, Bool, true, false, Option, none, some, List, [], ◌∷◌, refl, member, lookup, is_hex64, trim,
  to_lower_case, is_lower_hex64, every_char, includes, template,
}
use assurance_toto.Commands.{validate_command, get_schema, as_command}
use assurance_toto.Commands.Keywords.{conforms, matches_npub}
use assurance_toto.Policy.{evaluate, evaluate_type, evaluate_claim_approve}
use assurance_toto.Identity.{SignedEvent, safe_normalize_hex}
use assurance_toto.Pipeline.Types.{Envelope, parse_content, command_id_of_env, resolve_role}
use assurance_toto.Pipeline.InMemory.{in_memory}
use assurance_toto.Pipeline.Books.{books, book, consume}
use assurance_toto.Pipeline.Performed.{Ended, IsExecuted}
use assurance_toto.Pipeline.Progress.{MayRun, process-executes}
use assurance_toto.Pipeline.Total.{run, correlation, command_key}
use assurance_toto.Spec.{Reach}
use assurance_toto.Spec.Ledger.{IsSound}
use assurance_toto.Http.History.{Moment, Request, message, killswitch, serve_all}
use assurance_toto.Http.History.Refines.{serve_all-Reach, serve_all-IsSound}
use assurance_toto.Tests.Fixtures.{
  deps, world, envelope, company, settle_command, agent_key, ceo_key, noon,
}

abbrev settle_envelope : Envelope
settle_envelope = envelope agent_key "settle" false

settle_may : MayRun deps settle_envelope (world company) settle_command
unfolding command_id_of_env member resolve_role is_lower_hex64 every_char safe_normalize_hex
    is_hex64 trim to_lower_case evaluate evaluate_type evaluate_claim_approve includes template
    lookup
settle_may = record { unforged = refl; fresh = refl; unlocked = refl; policy_allowed = refl }

process-executes_example :
    Ended
      (IsExecuted deps settle_envelope
        (correlation deps settle_envelope (world company))
        settle_command
        (resolve_role (in_memory deps) settle_envelope))
      (book noon 500_000
        (correlation deps settle_envelope (world company))
        settle_command
        (consume (command_key deps settle_envelope (world company)) (books company)))
      (run deps settle_envelope (world company))
unfolding parse_content validate_command get_schema as_command conforms lookup matches_npub
process-executes_example =
    process-executes deps settle_envelope (world company) settle_command _ refl settle_may

abbrev no_check : SignedEvent → Option Bool
no_check ev = none

abbrev first_moment : Moment
first_moment = record { now = noon; fresh_id = "c-1"; local_event_id = "local-1"; uuid = "u-1" }

abbrev second_moment : Moment
second_moment = record {
  now = "2026-01-02T12:00:00Z";
  fresh_id = "c-2";
  local_event_id = "local-2";
  uuid = "u-2";
}

-- The settlement twice, then the kill-switch.
abbrev two_days : List (Moment × Request)
two_days =
    (first_moment, message settle_envelope)
    ∷ (second_moment, message settle_envelope)
    ∷ (
      second_moment,
      killswitch false (some (record { active = true; decided_by = ceo_key; reason = "stop" })),
    )
    ∷ []

serve_all-Reach_example :
    Reach 500_000 (books company) (books (serve_all deps no_check two_days (world company)).db)
serve_all-Reach_example = serve_all-Reach deps no_check two_days (world company)

serve_all-Grown_example :
    Grown deps.sha256 [] (serve_all deps no_check two_days (world company)).db.audit
serve_all-Grown_example = serve_all-Grown deps no_check two_days (world company)

company-IsSound : IsSound 500_000 (books company)
company-IsSound = record { once = tt; covered = omega arith; expenses = tt }

serve_all-IsSound_example :
    IsSound 500_000 (books (serve_all deps no_check two_days (world company)).db)
serve_all-IsSound_example = serve_all-IsSound deps no_check two_days (world company) company-IsSound
