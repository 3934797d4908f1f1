-- ===== src/Tests/Messages.antt =====
-- The adapter of buzz-hermes-bridge/src/collab/BuzzAdapter.ts against a relay that answers with a
-- settlement, a forged event and an event of another kind.
use assurance_toto.Prelude.{
  ℕ, String, Bool, true, false, Option, none, some, List, [], ◌∷◌, pos, ◌≡◌, refl, ◌==◌,
  to_lower_case, ◌⊎◌, lookup,
}
use assurance_toto.Json.{Json, str, num, arr, nil, cons, object, texts}
use assurance_toto.Exec.{ok, thrown, Thrown}
use assurance_toto.Collab.{
  Candidate, InboundCommand, Relay, fetch_commands, http_post, query_of, parse_inbound_event, h_tag,
}
use assurance_toto.Collab.Genuine.{AllGenuine, IsOrdered, fetch_commands-AllGenuine}
use assurance_toto.Tests.Fixtures.{agent_key, read_json}

abbrev unless_forged : Candidate → Option Bool
unless_forged c = some (c.sig == "signed")

abbrev event : String → String → ℕ → Json
event id sig kind = object (
    ("id", str id)
    ∷ ("pubkey", str agent_key)
    ∷ ("sig", str sig)
    ∷ ("created_at", num (pos 100))
    ∷ ("kind", num (pos kind))
    ∷ ("tags", arr (cons (texts ("h" ∷ "Canal" ∷ [])) nil))
    ∷ ("content", str "settle")
    ∷ [])

abbrev three_events : Json
three_events = arr (
    cons (event "e-1" "signed" 900)
      (cons (event "e-2" "forged" 900) (cons (event "e-3" "signed" 100) nil)))

abbrev answering : Relay ℕ
answering = record {
  url_of = λ path. path;
  post = λ url authorization body n. (
    ok (record { ok = true; status = 200; is_json = true; text = ""; json = ok three_events }),
    ℕ.suc n,
  );
  get_health = λ url n.
      (ok (record { ok = true; status = 200; is_json = false; text = ""; json = ok (str "") }), n);
  finalize = λ event. (object [], "signed-1");
  base64 = λ s. s;
  sha256 = λ s. s;
  now = 7;
}

forged_test : parse_inbound_event unless_forged read_json (event "e-2" "forged" 900) ≡ none
unfolding parse_inbound_event h_tag lookup
forged_test = refl

fetch_commands-AllGenuine_example :
    ((cmds : List InboundCommand) × ((fetch_commands unless_forged read_json answering "CANAL" none
          0).0
        ≡ ok cmds)
      × AllGenuine unless_forged read_json (to_lower_case "CANAL") cmds
      × IsOrdered cmds)
    ⊎ ((e : Thrown) × ((http_post answering "/query" (query_of (to_lower_case "CANAL") none) 0).0
          ≡ thrown e))
fetch_commands-AllGenuine_example =
    fetch_commands-AllGenuine unless_forged read_json answering "CANAL" none 0
