-- ===== src/Agent/Task/Guards.antt =====
-- The guards of `runTask` (agents/_runtime/src/runtime/agent.ts), whatever the language model answers.
use assurance_toto.Prelude.{
  ℕ, zero, suc, String, Bool, true, false, ◌&&◌, Option, none, some, List, [], ◌∷◌, ◌≡◌, arith,
  member, Bool-cases, inl, inr,
}
use assurance_toto.Json.{Json}
use assurance_toto.Exec.{Exec}
use assurance_toto.Exec.Keeps.{Keeps, Keeps-pure, Keeps-throw, Keeps-bind, Keeps-if, Keeps-catch}
use assurance_toto.Agent.Settlement.{Settlement, Escalation}
use assurance_toto.Agent.Task.{
  AgentDeps, Message, ToolCall, Response, Round, LoopEnd, stopped, finished, TaskInput, Posted,
  execute_one, run_parsed, run_calls, go_on, after_answer, after_chat, unless_active, loop,
  post_outcome, unless_locked, store_learning, conclude, unless_stopped, run_task, max_iterations,
}

-- What an agent may touch: all but its tools leaves the view as it was, and so does each tool that is
-- in the registry and on the allowlist.
pub record ListedKeep {W V : Type 0} (view : W → V) (deps : AgentDeps W) : Type 0 where
  pub is_active : Keeps view deps.is_active
  pub anonymize : (text : String) → Keeps view (deps.anonymize text)
  pub chat : (ms : List Message) (tools : List String) → Keeps view (deps.chat ms tools)
  pub post_command : (s : Settlement) (c : String) → Keeps view (deps.post_command s c)
  pub create_approbation : (e : Escalation) (c : String) → Keeps view (deps.create_approbation e c)
  pub store : (contenu c : String) → Keeps view (deps.store contenu c)
  pub execute :
      (name : String) (args : Json)
      → (member name deps.registry && member name deps.allowlist) ≡ true
      → Keeps view (deps.execute name args)

module _ {W V : Type 0} (view : W → V) (deps : AgentDeps W) (listed : ListedKeep view deps) where
  run_parsed-Keeps :
      (name : String) (o : Option Json)
      → (member name deps.registry && member name deps.allowlist) ≡ true
      → Keeps view (run_parsed deps name o)
  run_parsed-Keeps name none h = Keeps-throw _
  run_parsed-Keeps name (some args) h = listed.execute name args h

  execute_one-Keeps : (call : ToolCall) → Keeps view (execute_one deps call)
  unfolding execute_one
  execute_one-Keeps call = elim (Bool-cases (member call.name deps.registry)) [
    | inr unknown ↦ rw unknown (Keeps-pure _)
    | inl known ↦ elim (Bool-cases (member call.name deps.allowlist)) [
      | inr refused ↦ rw (known, refused) (Keeps-pure _)
      | inl allowed ↦
          let h : (member call.name deps.registry && member call.name deps.allowlist) ≡ true =
            ground (arith, known, allowed) in
          rw (known, allowed)
            (Keeps-if _ _ _ (run_parsed-Keeps call.name _ h) (listed.execute call.name _ h))
    ]
  ]

  run_calls-Keeps :
      (calls : List ToolCall) (r : Round) (p : Bool) → Keeps view (run_calls deps calls r p)
  unfolding run_calls
  run_calls-Keeps [] r p = Keeps-pure _
  run_calls-Keeps (call ∷ calls) r p =
      Keeps-bind _ _ (execute_one-Keeps call) (λ e. run_calls-Keeps calls _ _)

  round-Keeps :
      (next : Round → Exec W LoopEnd) (r : Round) (active : Bool)
      → ((r : Round) → Keeps view (next r))
      → Keeps view (unless_active deps next r active)
  round-Keeps next r true k = Keeps-pure _
  round-Keeps next r false k =
      Keeps-bind _ _
        (Keeps-catch _ _ (Keeps-bind _ _ (listed.chat _ _) (λ a. Keeps-pure _))
          (λ err. Keeps-pure _))
        heard
    where
      went : (x : Round × Bool) → Keeps view (go_on deps next x)
      went (r, p) = Keeps-if _ _ _ (k r) (Keeps-pure _)

      answered :
          (text : String) (calls : List ToolCall) → Keeps view (after_answer deps next r text calls)
      answered text [] = Keeps-pure _
      answered text (c ∷ cs) = Keeps-bind _ _ (run_calls-Keeps (c ∷ cs) _ false) went

      heard : (o : Option Response) → Keeps view (after_chat deps next r o)
      heard none = Keeps-pure _
      heard (some response) = answered response.text response.tool_calls

  loop-Keeps : (n : ℕ) (r : Round) → Keeps view (loop deps n r)
  unfolding loop
  loop-Keeps zero r = Keeps-pure _
  loop-Keeps (suc n) r =
      Keeps-bind _ _ listed.is_active (λ active. round-Keeps _ r active (loop-Keeps n))

  post-Keeps :
      (post : Exec W Posted) (active : Bool)
      → Keeps view post
      → Keeps view (unless_locked deps post active)
  post-Keeps post true k = Keeps-pure _
  post-Keeps post false k = Keeps-bind _ _ k (λ p. Keeps-pure _)

  post_outcome-Keeps :
      (c : String) (e : Option Escalation) (s : Option Settlement)
      → Keeps view (post_outcome deps c e s)
  unfolding post_outcome
  post_outcome-Keeps c (some e) s =
      Keeps-bind _ _ listed.is_active (λ b. post-Keeps _ b (listed.create_approbation e c))
  post_outcome-Keeps c none (some s) =
      Keeps-bind _ _ listed.is_active (λ b. post-Keeps _ b (listed.post_command _ c))
  post_outcome-Keeps c none none = Keeps-pure _

  conclude-Keeps : (c title : String) (e : LoopEnd) → Keeps view (conclude deps c title e)
  unfolding store_learning
  conclude-Keeps c title (stopped r) = Keeps-pure _
  conclude-Keeps c title (finished r fallback) =
      Keeps-bind _ _ (post_outcome-Keeps c r.pending r.candidate)
        λ p. Keeps-bind _ _ (listed.store _ c) λ u. Keeps-pure _

  started-Keeps :
      (c : String) (task : TaskInput) (active : Bool)
      → Keeps view (unless_stopped deps c task active)
  started-Keeps c task true = Keeps-pure _
  started-Keeps c task false = Keeps-bind _ _ (listed.anonymize _) λ t.
      Keeps-bind _ _ (listed.anonymize _)
        λ d. Keeps-bind _ _ (loop-Keeps max_iterations _) λ e. conclude-Keeps c _ e

  -- Deny by default: what each tool that is registered and on the allowlist leaves as it was, and the
  -- calls outside the tools as well, a whole task leaves as it was, whatever tools the model asks for.
  pub run_task-Keeps : (task : TaskInput) → Keeps view (run_task deps task)
  unfolding run_task
  run_task-Keeps task = Keeps-bind _ _ listed.is_active (started-Keeps _ task)
