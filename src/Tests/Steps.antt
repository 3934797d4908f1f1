-- ===== src/Tests/Steps.antt =====
-- The phases of `runPipeline` (buzz-hermes-bridge/src/pipeline.ts) on the small company.
use assurance_toto.Prelude.{
  false, ◌≡◌, refl, lookup, is_hex64, trim, to_lower_case, member, every_char, is_lower_hex64,
}
use assurance_toto.Json.{Json}
use assurance_toto.Commands.{validate_command, get_schema, as_command}
use assurance_toto.Commands.Keywords.{conforms, matches_npub}
use assurance_toto.Policy.{agent_sinistres, evaluate, evaluate_type, evaluate_claim_approve}
use assurance_toto.Exec.{ok, ◌>>=◌}
use assurance_toto.Exec.Keeps.{Keeps}
use assurance_toto.Exec.Returns.{Returns}
use assurance_toto.Identity.{safe_normalize_hex}
use assurance_toto.Repository.Memory.{memory_repository}
use assurance_toto.Repository.Memory.Views.{business, memory-ReadsKeep}
use assurance_toto.Pipeline.Types.{command_id_of_env, parse_content, resolve_role, on_db}
use assurance_toto.Pipeline.Checks.{admit, check_fresh, check_author, check_policy}
use assurance_toto.Pipeline.Execution.{perform}
use assurance_toto.Pipeline.Effects.{business_effect}
use assurance_toto.Pipeline.InMemory.{in_memory, Checked, admit-Checked}
use assurance_toto.Pipeline.Books.{book, books, consume}
use assurance_toto.Pipeline.Booked.{Booked, effect-Booked}
use assurance_toto.Pipeline.Performed.{Ended, IsExecuted, perform-Ended}
use assurance_toto.Pipeline.ReadOnly.{outside, admit-Keeps}
use assurance_toto.Pipeline.Authority.{IsSound, admit-IsSound}
use assurance_toto.Tests.Fixtures.{deps, world, envelope, company, settle_command, agent_key, noon}

admit-Keeps_example :
    Keeps (outside business) (admit (in_memory deps) (envelope agent_key "settle" false) "c-1")
admit-Keeps_example =
    admit-Keeps business (in_memory deps) (memory-ReadsKeep noon)
      (envelope agent_key "settle" false) "c-1"

admit-IsSound_example :
    Returns
      (IsSound (in_memory deps) (envelope agent_key "settle" false))
      (admit (in_memory deps) (envelope agent_key "settle" false) "c-1")
admit-IsSound_example = admit-IsSound (in_memory deps) (envelope agent_key "settle" false) "c-1"

admit-Checked_example :
    Checked deps
      (envelope agent_key "settle" false)
      "c-1"
      (world company)
      settle_command
      agent_sinistres
unfolding admit check_fresh check_author check_policy on_db parse_content command_id_of_env
    resolve_role validate_command get_schema as_command conforms lookup matches_npub member
    safe_normalize_hex is_hex64 trim to_lower_case is_lower_hex64 evaluate evaluate_type
    evaluate_claim_approve ◌>>=◌ every_char
admit-Checked_example =
    admit-Checked deps (envelope agent_key "settle" false) "c-1" settle_command agent_sinistres
      (world company) refl

perform-Ended_example :
    Ended
      (IsExecuted deps (envelope agent_key "settle" false) "c-1" settle_command agent_sinistres)
      (book noon 500_000 "c-1" settle_command (
        consume
          (command_id_of_env (in_memory deps) (envelope agent_key "settle" false))
          (books company)))
      (perform
        (in_memory deps)
        (envelope agent_key "settle" false)
        "c-1"
        settle_command
        agent_sinistres
        (world company))
unfolding member
perform-Ended_example =
    perform-Ended deps (envelope agent_key "settle" false) "c-1" settle_command agent_sinistres
      (world company) refl

effect-Booked_example :
    (effect : Json) × ((business_effect
        (memory_repository noon)
        500_000
        "c-1"
        settle_command
        company).0
      ≡ ok effect)
    × Booked 500_000 "c-1" settle_command
        (books company)
        (books (business_effect (memory_repository noon) 500_000 "c-1" settle_command company).1)
effect-Booked_example = effect-Booked noon 500_000 "c-1" settle_command company
