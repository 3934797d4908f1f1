-- ===== src/Tests/Policies.antt =====
-- The policy of buzz-hermes-bridge/src/policy/policy.ts on the small company.
use assurance_toto.Prelude.{true, false, none, some, ◌≡◌, refl, ◌↔◌}
use assurance_toto.Policy.{agent_sinistres, PolicyContext, evaluate}
use assurance_toto.Policy.Decisions.{MaySettle, evaluate-approve_iff}
use assurance_toto.Tests.Fixtures.{settle_command, claim, agent_key, noon}

abbrev context : PolicyContext
context = record {
  kill_switch = none;
  sinistre = some claim;
  command_consumed = false;
  approbation = none;
  threshold_eur = 500_000;
}

evaluate-approve_iff_example :
    ((evaluate settle_command context agent_sinistres).allowed ≡ true)
    ↔ MaySettle 200_000 claim 500_000 agent_sinistres
evaluate-approve_iff_example =
    evaluate-approve_iff "S-1" 200_000 "ok" agent_key noon context claim agent_sinistres refl refl
      refl
