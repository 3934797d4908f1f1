-- ===== src/Agent/Calls.antt =====
-- What the task loop can rely on in an answer of the language model
-- (agents/_runtime/src/llm/ollama.ts).
use assurance_toto.Agent.Ollama.{
  read_calls, Client, read_response, with_text, named, object_or_empty, arguments_of, and_then,
  chat, returned, with_retry, post_json, payload, raw_calls, function_of, message_in, text_or_blank,
}
use assurance_toto.Prelude.{
  ℕ, ◌+◌, String, Option, none, some, List, [], ◌∷◌, ◌≡◌, ◌≢◌, refl, Char, inl, inr, ◌⊎◌,
}
use assurance_toto.Json.{Json, Fields, obj, end, str, null, get}
use assurance_toto.Exec.{Result, ok, thrown, continue, ◌>>=◌, Thrown}
use assurance_toto.Agent.Task.{Message, ToolCall, Response}

-- A call with a name, whose arguments are an object.
pub record IsUsable (c : ToolCall) : Type 0 where
  pub named_call : c.name ≢ ""
  pub object_arguments : (fs : Fields) × (c.arguments ≡ obj fs)

abbrev pub AllUsable : List ToolCall → Type 0
AllUsable [] = Unit
AllUsable (c ∷ cs) = IsUsable c × AllUsable cs

abbrev ReadUsable : Result (List ToolCall) → Type 0
ReadUsable (ok cs) = AllUsable cs
ReadUsable (thrown e) = Unit

abbrev AnyUsable : Option ToolCall → Type 0
AnyUsable none = Unit
AnyUsable (some c) = IsUsable c

abbrev pub AnswersUsable : Result Response → Type 0
AnswersUsable (ok r) = AllUsable r.tool_calls
AnswersUsable (thrown e) = Unit

and_then-ReadUsable :
    (o : Option ToolCall) (r : Result (List ToolCall))
    → AnyUsable o
    → ReadUsable r
    → ReadUsable (and_then o r)
and_then-ReadUsable none r u h = h
and_then-ReadUsable (some c) (ok cs) u h = (u, h)
and_then-ReadUsable (some c) (thrown e) u h = tt

nonempty : (c : Char) (s : String) → String.◌∷◌ c s ≢ ""
nonempty c s e = absurd (cc e)

module _ (parse_json : String → Option Json) where
  object_or_empty-obj : (o : Option Json) → (fs : Fields) × (object_or_empty parse_json o ≡ obj fs)
  object_or_empty-obj (some (obj fs)) = (fs, refl)
  object_or_empty-obj _ = (end, refl)

  arguments_of-obj : (o : Option Json) → (fs : Fields) × (arguments_of parse_json o ≡ obj fs)
  arguments_of-obj (some (obj fs)) = (fs, refl)
  arguments_of-obj (some (str s)) = object_or_empty-obj (parse_json s)
  arguments_of-obj _ = (end, refl)

  named-IsUsable : (idx : ℕ) (name args : Option Json) → AnyUsable (named parse_json idx name args)
  named-IsUsable idx (some (str (String.◌∷◌ c s))) args = record {
    named_call = nonempty c s;
    object_arguments = arguments_of-obj args;
  }
  named-IsUsable idx _ args = tt

  read_calls-ReadUsable :
      (idx : ℕ) (calls : List Json) → ReadUsable (read_calls parse_json idx calls)
  unfolding read_calls
  read_calls-ReadUsable idx [] = tt
  read_calls-ReadUsable idx (null ∷ calls) = tt
  read_calls-ReadUsable idx (call ∷ calls) =
      let name = get "name" (function_of parse_json call) in
      let args = get "arguments" (function_of parse_json call) in
      and_then-ReadUsable (named parse_json idx name args) (read_calls parse_json (idx + 1) calls)
        (named-IsUsable idx name args) (read_calls-ReadUsable (idx + 1) calls)

  with_text-AnswersUsable :
      (text : String) (r : Result (List ToolCall))
      → ReadUsable r
      → AnswersUsable (with_text parse_json text r)
  with_text-AnswersUsable text (ok cs) h = h
  with_text-AnswersUsable text (thrown e) h = tt

  read_response-AnswersUsable : (wire : Json) → AnswersUsable (read_response parse_json wire)
  unfolding read_response
  read_response-AnswersUsable null = tt
  read_response-AnswersUsable wire =
      let calls = raw_calls parse_json (get "tool_calls" (message_in parse_json wire)) in
      with_text-AnswersUsable
        (text_or_blank parse_json (get "content" (message_in parse_json wire)))
        (read_calls parse_json 0 calls) (read_calls-ReadUsable 0 calls)

module _ {W : Type 0} (client : Client W) where
  -- What a chat may end in: usable calls, an answer that cannot be read, or two failed posts.
  abbrev pub ChatEnd : Result Response → Result Json → Type 0
  ChatEnd result wire =
      ((response : Response) × (result ≡ ok response) × AllUsable response.tool_calls)
      ⊎ (((v : Json) × (e : Thrown) × (wire ≡ ok v)
            × (read_response client.parse_json v ≡ thrown e))
          ⊎ ((e : Thrown) × (wire ≡ thrown e)))

  given :
      (v : Json) (r : Result Response) (w : W)
      → read_response client.parse_json v ≡ r
      → AnswersUsable r
      → ChatEnd (returned client r w).0 (ok v)
  given v (ok a) w e h = inl (a, refl, h)
  given v (thrown x) w e h = inr (inl (v, x, refl, e))

  answered :
      (r : Result Json) (w : W)
      → ChatEnd
          (continue (λ (v : Json). returned client (read_response client.parse_json v)) (r, w)).0
          r
  answered (ok v) w =
      given v (read_response client.parse_json v) w refl
        (read_response-AnswersUsable client.parse_json v)
  answered (thrown e) w = inr (inr (e, refl))

  -- Whatever the language model sends, a chat whose post or its retry gives an answer that can be read
  -- returns, and each tool call that it returns has a name that is not empty and an object for its
  -- arguments.
  pub chat-ChatEnd :
      (messages : List Message) (tools : List Json) (w : W)
      → ChatEnd
          (chat client messages tools w).0
          (with_retry "chat" (post_json client "/api/chat" (payload client messages tools)) w).0
  unfolding chat ◌>>=◌
  chat-ChatEnd messages tools w =
      let (r, v) =
        with_retry "chat" (post_json client "/api/chat" (payload client messages tools)) w in
      answered r v
