-- ===== src/Agent/Ollama.antt =====
-- The client of the language model (agents/_runtime/src/llm/ollama.ts): one retry, the tool calls that
-- are read from an answer, and embeddings. `fetch` and `JSON.parse` are parameters; the time limit of a
-- post and the pause before the retry are part of `fetch`.
use assurance_toto.Prelude.{
  ℕ, ◌+◌, String, Bool, true, false, not, Option, none, some, List, [], ◌∷◌, decimal, template,
  if◌then◌else◌,
}
use assurance_toto.Json.{
  Json, Items, null, bool, num, str, arr, obj, nil, cons, end, elems, get, object, stringify,
}
use assurance_toto.Exec.{
  Exec, Result, ok, thrown, Thrown, pipeline_error, other_error, pure, throw, catch, ◌>>=◌,
}
use assurance_toto.Agent.Task.{Message, ToolCall, Response}

-- What `fetch` gives: `resp.ok`, `resp.status` and `resp.json()`.
pub record Answer : Type 0 where
  pub ok : Bool
  pub status : ℕ
  pub json : Result Json

pub record Client (W : Type 0) : Type 0 where
  pub fetch : (url body : String) → Exec W Answer
  pub parse_json : String → Option Json
  pub model : String
  pub embed_model : String
  -- `opts.host` without a last slash
  pub host : String

abbrev items_of : List Json → Items
items_of [] = nil
items_of (v ∷ vs) = cons v (items_of vs)

abbrev optional : String → Option String → List (String × Json)
optional key none = []
optional key (some s) = (key, str s) ∷ []

abbrev message_json : Message → Json
message_json m =
    object
      (("role", str m.role) ∷ ("content", str m.content) ∷ optional "tool_call_id" m.tool_call_id)

abbrev message_items : List Message → Items
message_items [] = nil
message_items (m ∷ ms) = cons (message_json m) (message_items ms)

abbrev tools_field : List Json → List (String × Json)
tools_field [] = []
tools_field (t ∷ ts) = ("tools", arr (items_of (t ∷ ts))) ∷ []

abbrev message_of : Thrown → String
message_of (pipeline_error code message retryable) = message
message_of (other_error message) = message

-- `withRetry`
unfoldable pub with_retry : {W A : Type 0} → String → Exec W A → Exec W A
with_retry label action = catch action λ err. catch action λ err2.
    throw
      (other_error (template ("ollama " ∷ label ∷ " failed after retry: " ∷ message_of err2 ∷ [])))

-- A call, with the first of some calls or not at all.
abbrev pub and_then : Option ToolCall → Result (List ToolCall) → Result (List ToolCall)
and_then none rest = rest
and_then (some c) (ok cs) = ok (c ∷ cs)
and_then (some c) (thrown e) = thrown e

module _ (parse_json : String → Option Json) where
  abbrev pub object_or_empty : Option Json → Json
  object_or_empty (some (obj fs)) = obj fs
  object_or_empty _ = obj end

  -- The arguments of a call: an object, or the text of one, or nothing.
  abbrev pub arguments_of : Option Json → Json
  arguments_of (some (obj fs)) = obj fs
  arguments_of (some (str s)) = object_or_empty (parse_json s)
  arguments_of _ = obj end

  abbrev pub function_of : Json → Json
  function_of call = elim (get "function" call) [ none ↦ null | some f ↦ f ]

  abbrev pub named : ℕ → Option Json → Option Json → Option ToolCall
  named idx (some (str (String.◌∷◌ c s))) args = some (record {
    id = template ("call-" ∷ decimal idx ∷ []);
    name = String.◌∷◌ c s;
    arguments = arguments_of args;
  })
  named idx _ args = none

  -- The loop over `msg.tool_calls`; a `null` among them has no property `function`.
  unfoldable pub read_calls : ℕ → List Json → Result (List ToolCall)
  read_calls idx [] = ok []
  read_calls idx (null ∷ calls) =
      thrown (other_error "Cannot read properties of null (reading 'function')")
  read_calls idx (call ∷ calls) =
      and_then (named idx (get "name" (function_of call)) (get "arguments" (function_of call)))
        (read_calls (idx + 1) calls)

  abbrev pub raw_calls : Option Json → List Json
  raw_calls (some (arr calls)) = elems calls
  raw_calls _ = []

  abbrev pub text_or_blank : Option Json → String
  text_or_blank (some (str s)) = s
  text_or_blank _ = ""

  -- `wire.message ?? {}`
  abbrev pub message_in : Json → Json
  message_in wire = elim (get "message" wire) [ none ↦ obj end | some m ↦ m ]

  abbrev pub with_text : String → Result (List ToolCall) → Result Response
  with_text text (ok calls) = ok (record { text = text; tool_calls = calls })
  with_text text (thrown e) = thrown e

  unfoldable pub read_response : Json → Result Response
  read_response null = thrown (other_error "Cannot read properties of null (reading 'message')")
  read_response wire =
      with_text (text_or_blank (get "content" (message_in wire)))
        (read_calls 0 (raw_calls (get "tool_calls" (message_in wire))))

abbrev all_numbers : List Json → Bool
all_numbers [] = true
all_numbers (num n ∷ vs) = all_numbers vs
all_numbers _ = false

abbrev vector_of : Option Json → Option (List Json)
vector_of (some (arr vs)) = if all_numbers (elems vs) then some (elems vs) else none
vector_of _ = none

module _ {W : Type 0} (client : Client W) where
  abbrev pub returned : {A : Type 0} → Result A → Exec W A
  returned (ok v) = pure v
  returned (thrown e) = throw e

  abbrev read_answer : Answer → Exec W Json
  read_answer a =
      if not a.ok
      then throw (other_error (template ("ollama HTTP " ∷ decimal a.status ∷ [])))
      else returned a.json

  -- `postJson`
  unfoldable pub post_json : String → Json → Exec W Json
  post_json path body = do
    answer ← client.fetch (template (client.host ∷ path ∷ [])) (stringify body)
    read_answer answer

  abbrev pub payload : List Message → List Json → Json
  payload messages tools = object (
      ("model", str client.model)
      ∷ ("messages", arr (message_items messages))
      ∷ ("stream", bool false)
      ∷ tools_field tools)

  unfoldable pub chat : List Message → List Json → Exec W Response
  chat messages tools = do
    wire ← with_retry "chat" (post_json "/api/chat" (payload messages tools))
    returned (read_response client.parse_json wire)

  -- `embed` never throws: `none` stands for its `null`.
  unfoldable pub embed : String → Exec W (Option (List Json))
  embed text =
      catch
        (post_json "/api/embeddings"
            (object (("model", str client.embed_model) ∷ ("prompt", str text) ∷ []))
          >>= λ wire. pure (vector_of (get "embedding" wire)))
        (λ err. pure none)
