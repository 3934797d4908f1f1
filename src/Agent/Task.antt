-- ===== src/Agent/Task.antt =====
-- `runTask` of agents/_runtime/src/runtime/agent.ts: one bounded conversation of an agent. The language
-- model, the bridge, the database and the anonymiser act on a state `W` and are parameters, and so are
-- the pattern tests of privacy/anonymize.ts; the loop, the guards and the messages are the source's.
pub mod Guards
pub mod Bound
use assurance_toto.Prelude.{
  select, ◌==◌, or_else, ℕ, zero, suc, String, Bool, true, false, not, ◌&&◌, ◌||◌, Option, none,
  some, List, [], ◌∷◌, ◌++◌, member, map, template, join, trim, take_chars, decimal, if◌then◌else◌,
}
use assurance_toto.Json.{Json, str, object, stringify}
use assurance_toto.Exec.{Exec, other_error, pure, throw, catch, ◌>>=◌, ◌>>◌}
use assurance_toto.Agent.Settlement.{Settlement, Escalation, ToolExecution, failed}

abbrev pub max_iterations : ℕ
max_iterations = 6

pub record Message : Type 0 where
  pub role : String
  pub content : String
  pub tool_call_id : Option String

pub record ToolCall : Type 0 where
  pub id : String
  pub name : String
  pub arguments : Json

pub record Response : Type 0 where
  pub text : String
  pub tool_calls : List ToolCall

pub record ToolCallRecord : Type 0 where
  pub name : String
  pub ok : Bool
  pub result : Json

-- `BridgePostResult`, without the body
pub record Posted : Type 0 where
  pub ok : Bool
  pub http_status : ℕ

pub record Skill : Type 0 where
  pub name : String
  pub description : String
  pub tools_allowed : List String
  pub system_template : String

pub record TaskInput : Type 0 where
  pub title : String
  pub description : String
  pub correlation_id : Option String

pub record TaskResult : Type 0 where
  pub correlation_id : String
  pub tool_calls : List ToolCallRecord
  pub command : Option Posted
  pub fallback_text : String
  pub summary : String
  pub stopped_by_kill_switch : Bool

pub record AgentDeps (W : Type 0) : Type 0 where
  pub role : String
  pub departement : String
  pub skills : List Skill
  -- the registry's names, in order, and the allowlist
  pub registry : List String
  pub allowlist : List String
  pub is_active : Exec W Bool
  pub anonymize : String → Exec W String
  pub chat : List Message → List String → Exec W Response
  pub execute : String → Json → Exec W ToolExecution
  pub post_command : Settlement → String → Exec W Posted
  pub create_approbation : Escalation → String → Exec W Posted
  -- `ollama.embed` and `db.insertMemoire` of a text
  pub store : (contenu correlation_id : String) → Exec W (Unit {0})
  pub has_pii : String → Bool
  pub final_scrub : String → String
  pub parse_json : String → Option Json
  pub fresh_id : String

-- What the loop carries.
pub record Round : Type 0 where
  pub messages : List Message
  pub records : List ToolCallRecord
  pub candidate : Option Settlement
  pub pending : Option Escalation

pub data LoopEnd : Type 0 where
  stopped : Round → LoopEnd
  finished : Round → (fallback : String) → LoopEnd

abbrev pub newer : {A : Type 0} → Option A → Option A → Option A
newer (some a) old = some a
newer none old = old

abbrev is_none : {A : Type 0} → Option A → Bool
is_none none = true
is_none _ = false

abbrev skill_lines : Skill → List String
skill_lines s =
    template ("SKILL \"" ∷ s.name ∷ "\" :" ∷ [])
      ∷ (if s.description == "" then [] else template ("Description : " ∷ s.description ∷ []) ∷ [])
    ++ (elim s.tools_allowed [
      | [] ↦ []
      | t ∷ ts ↦ template ("Preferred tools: " ∷ join ", " (t ∷ ts) ∷ []) ∷ []
    ])
    ++ trim s.system_template ∷ "" ∷ []

abbrev all_skill_lines : List Skill → List String
all_skill_lines [] = []
all_skill_lines (s ∷ rest) = skill_lines s ++ all_skill_lines rest

-- `${name}:${ok ? 'ok' : 'err'}`
abbrev record_text : ToolCallRecord → String
record_text r = template (r.name ∷ ":" ∷ (if r.ok then "ok" else "err") ∷ [])

abbrev command_text : Option Posted → String
command_text none = "no command issued"
command_text (some p) = template (
    "bridge command "
    ∷ (if p.ok then "accepted" else "denied")
    ∷ " (HTTP "
    ∷ decimal p.http_status
    ∷ ")"
    ∷ [])

-- `summarize`
unfoldable pub summarize : List ToolCallRecord → String → Option Posted → String
summarize [] fallback command =
    if fallback == ""
    then "No tool called and no answer."
    else "No tool called — LLM text answer returned as fallback."
summarize (r ∷ rs) fallback command = template (
    "Tools executed ["
    ∷ join ", " (map record_text (r ∷ rs))
    ∷ "]; "
    ∷ command_text command
    ∷ "."
    ∷ [])

module _ {W : Type 0} (deps : AgentDeps W) where
  -- The tools of the registry that the allowlist names.
  abbrev pub tool_names : List String
  tool_names = select (λ n. member n deps.allowlist) deps.registry

  -- `buildSystemPrompt`
  unfoldable pub system_prompt : List String → String
  system_prompt names = join "\n" (
      template (
        "You are the \"" ∷ deps.role ∷ "\" agent of Assurance Toto (department \""
        ∷ deps.departement ∷ "\")." ∷ [])
      ∷ ""
      ∷ "STRICT RULES:"
      ∷ "1. ALWAYS answer with a tool call. Never free text unless no tool is relevant."
      ∷ "2. Structured JSON output only, via tools. No prose."
      ∷ "3. NO personal data (PII) in your reasoning, arguments or answers."
      ∷ "4. You NEVER directly modify business data. You can only recommend via the recommander_reglement tool; the actual settlement is applied by the bridge after policy/approval."
      ∷ template ("5. Available tools are: " ∷ join ", " names ∷ "." ∷ [])
      ∷ ""
      ∷ all_skill_lines deps.skills)

  abbrev pub run_parsed : String → Option Json → Exec W ToolExecution
  run_parsed name none = throw (other_error "JSON.parse")
  run_parsed name (some args) = deps.execute name args

  -- `executeOne`
  unfoldable pub execute_one : ToolCall → Exec W ToolExecution
  execute_one call =
      if not (member call.name deps.registry)
      then pure (failed call.name "unknown tool")
      else if not (member call.name deps.allowlist)
      then pure (failed call.name (template ("tool not allowed: " ∷ call.name ∷ [])))
      else if deps.has_pii (stringify call.arguments)
      then run_parsed call.name (deps.parse_json (deps.final_scrub (stringify call.arguments)))
      else deps.execute call.name call.arguments

  abbrev pub after_tool : ToolCall → ToolExecution → Round → Round
  after_tool call e r = record {
    messages =
        r.messages
        ++ record {
          role = "tool";
          content = take_chars 4_000 (stringify e.result);
          tool_call_id = some call.id;
        }
          ∷ [];
    records = r.records ++ record { name = call.name; ok = e.ok; result = e.result } ∷ [];
    candidate = newer e.candidate_command r.candidate;
    pending = newer e.pending_approval r.pending;
  }

  -- The calls of one answer, with `madeProgress`.
  unfoldable pub run_calls : List ToolCall → Round → Bool → Exec W (Round × Bool)
  run_calls [] r progress = pure (r, progress)
  run_calls (call ∷ calls) r progress = do
    e ← execute_one call
    run_calls calls (after_tool call e r) (progress || e.ok)

  abbrev pub with_answer : String → Round → Round
  with_answer text r = record r {
    messages =
        r.messages ++ record { role = "assistant"; content = text; tool_call_id = none } ∷ [];
  }

  -- The rest of the loop is `next`.
  module _ (next : Round → Exec W LoopEnd) where
    abbrev pub go_on : Round × Bool → Exec W LoopEnd
    go_on (r, progress) =
        if is_none r.candidate && is_none r.pending && progress
        then next r
        else pure (finished r "")

    abbrev pub after_answer : Round → String → List ToolCall → Exec W LoopEnd
    after_answer r text [] = pure (finished r text)
    after_answer r text (c ∷ cs) = run_calls (c ∷ cs) (with_answer text r) false >>= go_on

    abbrev pub after_chat : Round → Option Response → Exec W LoopEnd
    after_chat r none = pure (finished r "")
    after_chat r (some response) = after_answer r response.text response.tool_calls

    abbrev pub unless_active : Round → Bool → Exec W LoopEnd
    unless_active r true = pure (stopped r)
    unless_active r false =
        catch (deps.chat r.messages tool_names >>= λ a. pure (some a)) (λ err. pure none)
        >>= after_chat r

  -- The `for` loop, with the number of iterations left.
  unfoldable pub loop : ℕ → Round → Exec W LoopEnd
  loop zero r = pure (finished r "")
  loop (suc n) r = deps.is_active >>= unless_active (loop n) r

  -- `scrubCandidate`
  abbrev pub scrub_candidate : Settlement → Settlement
  scrub_candidate c =
      if deps.has_pii c.reason then record c { reason = deps.final_scrub c.reason } else c

  abbrev pub unless_locked : Exec W Posted → Bool → Exec W (Option Posted)
  unless_locked post true = pure none
  unless_locked post false = post >>= λ p. pure (some p)

  -- The POST to the bridge, behind one more look at the kill-switch.
  unfoldable pub post_outcome :
      String → Option Escalation → Option Settlement → Exec W (Option Posted)
  post_outcome c (some e) candidate = deps.is_active >>= unless_locked (deps.create_approbation e c)
  post_outcome c none (some s) =
      deps.is_active >>= unless_locked (deps.post_command (scrub_candidate s) c)
  post_outcome c none none = pure none

  abbrev records_text : List ToolCallRecord → String
  records_text [] = "none"
  records_text (r ∷ rs) = join ", " (map record_text (r ∷ rs))

  abbrev posted_text : Option Posted → String
  posted_text none = "no command."
  posted_text (some p) = template ("bridge: HTTP " ∷ decimal p.http_status ∷ [])

  -- `storeLearning`
  unfoldable pub store_learning :
      String → String → List ToolCallRecord → Option Posted → Exec W (Unit {0})
  store_learning c title records posted =
      deps.store
        (template (
          "Task \""
          ∷ take_chars 120 (deps.final_scrub title)
          ∷ "\" — tools: "
          ∷ records_text records
          ∷ "; "
          ∷ posted_text posted
          ∷ []))
        c

  abbrev pub halted : String → List ToolCallRecord → String → TaskResult
  halted c records summary = record {
    correlation_id = c;
    tool_calls = records;
    command = none;
    fallback_text = "";
    summary = summary;
    stopped_by_kill_switch = true;
  }

  abbrev pub conclude : String → String → LoopEnd → Exec W TaskResult
  conclude c title (stopped r) = pure (halted c r.records "Stopped mid-way: kill-switch activated.")
  conclude c title (finished r fallback) = do
    posted ← post_outcome c r.pending r.candidate
    store_learning c title r.records posted
    pure (record {
      correlation_id = c;
      tool_calls = r.records;
      command = posted;
      fallback_text = fallback;
      summary = summarize r.records fallback posted;
      stopped_by_kill_switch = false;
    })

  abbrev pub first_round : String → String → Round
  first_round title description = record {
    messages =
        record { role = "system"; content = system_prompt tool_names; tool_call_id = none }
        ∷ record {
          role = "user";
          content = template ("Task: " ∷ title ∷ "\n\n" ∷ description ∷ []);
          tool_call_id = none;
        }
        ∷ [];
    records = [];
    candidate = none;
    pending = none;
  }

  abbrev pub unless_stopped : String → TaskInput → Bool → Exec W TaskResult
  unless_stopped c task true = pure (halted c [] "Stopped: kill-switch active.")
  unless_stopped c task false = do
    title ← deps.anonymize task.title
    description ← deps.anonymize task.description
    end ← loop max_iterations (first_round title description)
    conclude c task.title end

  unfoldable pub run_task : TaskInput → Exec W TaskResult
  run_task task =
      let c : String = or_else task.correlation_id deps.fresh_id in
      deps.is_active >>= unless_stopped c task
