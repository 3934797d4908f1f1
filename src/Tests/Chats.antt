-- ===== src/Tests/Chats.antt =====
-- The client of agents/_runtime/src/llm/ollama.ts against a model that fails once and then calls two
-- tools, one of them without a name.
use assurance_toto.Agent.Bodies.{Bounded, parse_task_body-Bounded}
use assurance_toto.Agent.Server.{parse_task_body, accepted}
use assurance_toto.Agent.Calls.{ChatEnd, chat-ChatEnd}
use assurance_toto.Agent.Ollama.{
  Answer, chat, Client, with_retry, post_json, payload, read_response, read_calls,
}
use assurance_toto.Prelude.{
  ℕ, String, none, [], ◌∷◌, ◌≡◌, refl, false, suc, true, zero, lookup, trim, take_chars,
}
use assurance_toto.Json.{Json, str, arr, nil, cons, object}
use assurance_toto.Exec.{ok, catch, ◌>>=◌}

abbrev call : String → Json
call name = object (("function", object (("name", str name) ∷ ("arguments", str "oops") ∷ [])) ∷ [])

abbrev two_calls : Json
two_calls = object (
    (
      "message",
      object (
          ("content", str "")
          ∷ ("tool_calls", arr (cons (call "") (cons (call "score_risk") nil)))
          ∷ []),
    )
    ∷ [])

abbrev flaky_answer : ℕ → Answer
flaky_answer zero = record { ok = false; status = 500; json = ok two_calls }
flaky_answer (suc n) = record { ok = true; status = 200; json = ok two_calls }

-- The state counts the posts.
abbrev flaky : Client ℕ
flaky = record {
  fetch = λ url body n. (ok (flaky_answer n), ℕ.suc n);
  parse_json = λ text. none;
  model = "gemma";
  embed_model = "nomic";
  host = "http://ollama";
}

two_posts : (chat flaky [] [] 0).1 ≡ 2
unfolding chat with_retry post_json catch ◌>>=◌ read_response read_calls lookup
two_posts = refl

chat-ChatEnd_example :
    ChatEnd flaky
      (chat flaky [] [] 0).0
      (with_retry "chat" (post_json flaky "/api/chat" (payload flaky [] [])) 0).0
chat-ChatEnd_example = chat-ChatEnd flaky [] [] 0

abbrev task_json : Json
task_json = object (("title", str " triage ") ∷ ("description", str "read the claim S-1") ∷ [])

parse_task_body-Bounded_example : Bounded (parse_task_body task_json)
parse_task_body-Bounded_example = parse_task_body-Bounded task_json

task_test :
    parse_task_body task_json
    ≡ accepted
        (record { title = "triage"; description = "read the claim S-1"; correlation_id = none })
unfolding parse_task_body trim take_chars lookup
task_test = refl
