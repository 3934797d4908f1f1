-- ===== src/Tests/Agents.antt =====
-- The agent runtime of agents/_runtime/src on small inputs.
use assurance_toto.Prelude.{
  ◌-◌, take_chars, if◌then◌else◌, ◌/◌, arith, Bool-cases, inl, inr, member, eq_iff, ◌==◌, ◌&&◌,
  ◌==◌, member, ℕ, ◌+◌, ◌<◌, ◌≤◌, String, true, false, Option, none, some, List, [], ◌∷◌, ◌≡◌, refl,
  ◌⊎◌, ℤ, pos, ltb_ℤ, lookup, trim, min,
}
use assurance_toto.Json.{Json, null, str, num}
use assurance_toto.Exec.{ok, pure}
use assurance_toto.Exec.Keeps.{Keeps}
use assurance_toto.Agent.KillSwitch.{
  CacheEntry, is_active, is_active-fail_closed, cache_limit, ActifRow, LacksTrue,
}
use assurance_toto.Agent.Risk.{
  DonneesRisque, age, bonus_malus, score_de_risque, score_de_risque-bounds,
}
use assurance_toto.Agent.Explained.{facteurs, added, taken, total, score_de_risque-facteurs}
use assurance_toto.Agent.Settlement.{
  IsBounded, recommander_reglement, recommander_reglement-IsBounded, failed, ToolExecution,
  Settlement, build_settlement_command,
}
use assurance_toto.Agent.Task.{max_iterations, AgentDeps, run_task, Posted, ToolCall}
use assurance_toto.Agent.Task.Bound.{Adds, CountsChats, run_task-chats}
use assurance_toto.Agent.Task.Guards.{ListedKeep, run_task-Keeps}
use assurance_toto.Tests.Fixtures.{agent_key, noon}

abbrev seen_off : CacheEntry
seen_off = record { value = false; at = 1_000 }

-- The last answer was off, and the query now fails.
abbrev unread : Option (List ActifRow)
unread = none

is_active-fail_closed_example :
    ((rows : List ActifRow) × (unread ≡ some rows) × LacksTrue rows)
    ⊎ ((c : CacheEntry) × (some seen_off ≡ some c)
        × (c.value ≡ false)
        × ((3_500 < c.at + cache_limit) ⊎ (unread ≡ none)))
unfolding is_active
is_active-fail_closed_example = is_active-fail_closed cache_limit 3_500 (some seen_off) unread refl

-- A query that answers without a row reads as off, after a first failure stopped the agent.
missing_row_reads_as_off :
    ((is_active cache_limit 0 none none).0 ≡ true)
    × ((is_active cache_limit 0 none (some [])).0 ≡ false)
unfolding is_active
missing_row_reads_as_off = (refl, refl)

abbrev young_driver : DonneesRisque
young_driver = record {
  age_conducteur = some (pos 2_000);
  bonus_malus = some (pos 300);
  type_vehicule = "sportive";
  zone = "paris";
  formule = "tiers";
  age_vehicule = none;
  source = "autre";
}

score_de_risque-bounds_example :
    (20 ≤ score_de_risque young_driver)
    × (score_de_risque young_driver ≤ 100)
    × ((score_de_risque young_driver ≤ 80)
        ⊎ ((ltb_ℤ (age young_driver) (pos 2_500) ≡ true)
            ⊎ (ltb_ℤ (pos 125) (bonus_malus young_driver) ≡ true)))
score_de_risque-bounds_example = score_de_risque-bounds young_driver

score_de_risque-facteurs_example :
    score_de_risque young_driver
    ≡ min (30 + total added (facteurs young_driver) - total taken (facteurs young_driver)) 100
score_de_risque-facteurs_example = score_de_risque-facteurs young_driver

-- Units of a thousandth of a euro, ten to a cent: no text, array or object is a number but "0.004".
abbrev value_number : Json → Option ℤ
value_number (str s) = if s == "0.004" then some (pos 4) else none
value_number _ = none

abbrev whole_cents : ℕ → Json
whole_cents m = num (pos (m / 10))

abbrev proposal : Json → List (String × Json)
proposal montant = ("claim_id", str "S-1") ∷ ("montant", montant) ∷ ("raison", str "damage") ∷ []

abbrev recommended : Json → ToolExecution
recommended montant =
    recommander_reglement 5 value_number whole_cents 500_000 agent_key noon (proposal montant)

recommander_reglement-IsBounded_example :
    IsBounded 5 value_number whole_cents 500_000 agent_key noon
      (some (pos 9_000_000))
      (recommended (num (pos 900_000)))
unfolding lookup
recommander_reglement-IsBounded_example =
    recommander_reglement-IsBounded 5 value_number whole_cents 500_000 agent_key noon (omega arith)
      (proposal (num (pos 900_000)))

-- An amount below half a cent becomes a command for 0.
tiny_amount_is_zero :
    (s : Settlement) × ((recommended (str "0.004")).candidate_command ≡ some s)
    × (s.max_amount_eur ≡ 0)
unfolding recommander_reglement build_settlement_command lookup trim take_chars
tiny_amount_is_zero = (_, refl, refl)

-- A model that asks for a listed tool and for one that is not; the state counts the runs of the latter.
abbrev ask : String → ToolCall
ask name = record { id = "1"; name = name; arguments = null }

abbrev sent : Posted
sent = record { ok = true; http_status = 200 }

abbrev agent : AgentDeps ℕ
agent = record {
  role = "sinistres";
  departement = "sinistres";
  skills = [];
  registry = "lire_client" ∷ "lire_sinistre" ∷ [];
  allowlist = "lire_sinistre" ∷ [];
  is_active = pure false;
  anonymize = λ text. pure text;
  chat = λ ms tools.
      pure (record { text = ""; tool_calls = ask "lire_client" ∷ ask "lire_sinistre" ∷ [] });
  execute = λ name args w. elim (name == "lire_client") [
    | true ↦ (ok (failed name "read"), w + 1)
    | false ↦ (ok (failed name "read"), w)
  ];
  post_command = λ s c. pure sent;
  create_approbation = λ e c. pure sent;
  store = λ contenu c. pure tt;
  has_pii = λ s. false;
  final_scrub = λ s. s;
  parse_json = λ s. none;
  fresh_id = "c-1";
}

abbrev counter : ℕ → ℕ
counter w = w

kept :
    (name : String) (w : ℕ)
    → (member name agent.registry && member name agent.allowlist) ≡ true
    → counter (agent.execute name null w).1 ≡ w
unfolding member
kept name w h = elim (Bool-cases (name == "lire_client")) [
  | inl same ↦
      let e : name ≡ "lire_client" = (eq_iff name "lire_client").0 same in absurd (cc (rw e at h))
  | inr other ↦ rw (counter, other) refl
]

-- The state counts the chats.
abbrev chatty : AgentDeps ℕ
chatty = record agent {
  chat = λ ms tools w. (ok (record { text = ""; tool_calls = ask "lire_sinistre" ∷ [] }), w + 1);
  execute = λ name args. pure (failed name "read");
}

counted : CountsChats counter chatty
counted = record {
  is_active = record { at = λ w. refl };
  anonymize = λ text. record { at = λ w. refl };
  chat = λ ms tools. record { at = λ w. omega arith };
  execute = λ name args. record { at = λ w. refl };
  post_command = λ s c. record { at = λ w. refl };
  create_approbation = λ e c. record { at = λ w. refl };
  store = λ contenu c. record { at = λ w. refl };
}

run_task-chats_example :
    Adds counter max_iterations
      (run_task chatty (record { title = "t"; description = "d"; correlation_id = none }))
run_task-chats_example =
    run_task-chats counter chatty counted
      (record { title = "t"; description = "d"; correlation_id = none })

listed : ListedKeep counter agent
unfolding member
listed = record {
  is_active = record { at = λ w. refl };
  anonymize = λ text. record { at = λ w. refl };
  chat = λ ms tools. record { at = λ w. refl };
  post_command = λ s c. record { at = λ w. refl };
  create_approbation = λ e c. record { at = λ w. refl };
  store = λ contenu c. record { at = λ w. refl };
  execute = λ name args h. record { at = λ w. kept name w h };
}

run_task-Keeps_example :
    Keeps counter
      (run_task agent (record { title = "t"; description = "d"; correlation_id = none }))
run_task-Keeps_example =
    run_task-Keeps counter agent listed
      (record { title = "t"; description = "d"; correlation_id = none })
