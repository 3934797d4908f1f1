-- ===== src/Agent/Task/Bound.antt =====
-- How long `runTask` (agents/_runtime/src/runtime/agent.ts) converses with the language model.
use assurance_toto.Prelude.{
  ℕ, zero, suc, ◌+◌, ◌≤◌, String, Bool, true, false, Option, none, some, List, [], ◌∷◌, arith, ◌≡◌,
  subst, Bool-cases, inl, inr, member, if◌then◌else◌,
}
use assurance_toto.Json.{Json}
use assurance_toto.Exec.{Exec, Result, ok, thrown, Thrown, catch, handle, continue, ◌>>=◌}
use assurance_toto.Exec.Keeps.{Keeps, Keeps-pure, Keeps-throw, Keeps-bind, Keeps-if}
use assurance_toto.Agent.Settlement.{Settlement, Escalation}
use assurance_toto.Agent.Task.{
  AgentDeps, Message, ToolCall, Response, Round, LoopEnd, stopped, finished, TaskInput, Posted,
  execute_one, run_parsed, run_calls, go_on, after_answer, after_chat, unless_active, loop,
  post_outcome, unless_locked, store_learning, conclude, unless_stopped, run_task, max_iterations,
}

-- An action after which a counter is at most `n` higher.
pub record Adds {W A : Type 0} (count : W → ℕ) (n : ℕ) (m : Exec W A) : Type 0 where
  pub at : (w : W) → count (m w).1 ≤ count w + n

module _ {W A : Type 0} {count : W → ℕ} where
  Adds-Keeps : (n : ℕ) (m : Exec W A) → Keeps count m → Adds count n m
  Adds-Keeps n m k = record { at = λ w. let e = k.at w in omega (arith, e) }

  Adds-if :
      (n : ℕ) (b : Bool) (m k : Exec W A)
      → Adds count n m
      → Adds count n k
      → Adds count n (if b then m else k)
  Adds-if n true m k am ak = am
  Adds-if n false m k am ak = ak

  Adds-same : (n k : ℕ) (m : Exec W A) → n ≡ k → Adds count n m → Adds count k m
  Adds-same n k m e a = subst (λ j. Adds count j m) e a

  caught :
      (n : ℕ) (h : Thrown → Exec W A) (r : Result A) (w : W) (before : ℕ)
      → ((e : Thrown) → Keeps count (h e))
      → count w ≤ before + n
      → count (handle h (r, w)).1 ≤ before + n
  caught n h (ok a) w before k le = le
  caught n h (thrown e) w before k le = let same = (k e).at w in omega (arith, same, le)

  Adds-catch :
      (n : ℕ) (m : Exec W A) (h : Thrown → Exec W A)
      → Adds count n m
      → ((e : Thrown) → Keeps count (h e))
      → Adds count n (catch m h)
  unfolding catch
  Adds-catch n m h a k = record {
    at = λ w. let le = a.at w in let (r, t) = m w in caught n h r t (count w) k le;
  }

module _ {W A B : Type 0} {count : W → ℕ} where
  resumed :
      (n : ℕ) (f : A → Exec W B) (r : Result A) (w : W)
      → ((a : A) → Adds count n (f a))
      → count (continue f (r, w)).1 ≤ count w + n
  resumed n f (ok a) w k = (k a).at w
  resumed n f (thrown e) w k = omega arith

  Adds-bind :
      (n k : ℕ) (m : Exec W A) (f : A → Exec W B)
      → Adds count n m
      → ((a : A) → Adds count k (f a))
      → Adds count (n + k) (m >>= f)
  unfolding ◌>>=◌
  Adds-bind n k m f am af = record {
    at = λ w.
        let first = am.at w in
        let (r, t) = m w in let second = resumed k f r t af in omega (arith, first, second);
  }

  -- What keeps the counter adds nothing before the rest.
  Adds-after :
      (n : ℕ) (m : Exec W A) (f : A → Exec W B)
      → Keeps count m
      → ((a : A) → Adds count n (f a))
      → Adds count n (m >>= f)
  Adds-after n m f k af =
      Adds-same (0 + n) n _ (omega arith) (Adds-bind 0 n m f (Adds-Keeps 0 m k) af)

-- A counter that only the language model moves, by one at most for each chat.
pub record CountsChats {W : Type 0} (count : W → ℕ) (deps : AgentDeps W) : Type 0 where
  pub is_active : Keeps count deps.is_active
  pub anonymize : (text : String) → Keeps count (deps.anonymize text)
  pub chat : (ms : List Message) (tools : List String) → Adds count 1 (deps.chat ms tools)
  pub execute : (name : String) (args : Json) → Keeps count (deps.execute name args)
  pub post_command : (s : Settlement) (c : String) → Keeps count (deps.post_command s c)
  pub create_approbation : (e : Escalation) (c : String) → Keeps count (deps.create_approbation e c)
  pub store : (contenu c : String) → Keeps count (deps.store contenu c)

module _ {W : Type 0} (count : W → ℕ) (deps : AgentDeps W) (counts : CountsChats count deps) where
  parsed-Keeps : (name : String) (o : Option Json) → Keeps count (run_parsed deps name o)
  parsed-Keeps name none = Keeps-throw _
  parsed-Keeps name (some args) = counts.execute name args

  tool-Keeps : (call : ToolCall) → Keeps count (execute_one deps call)
  unfolding execute_one
  tool-Keeps call = elim (Bool-cases (member call.name deps.registry)) [
    | inr unknown ↦ rw unknown (Keeps-pure _)
    | inl known ↦ elim (Bool-cases (member call.name deps.allowlist)) [
      | inr refused ↦ rw (known, refused) (Keeps-pure _)
      | inl allowed ↦
          rw (known, allowed)
            (Keeps-if _ _ _ (parsed-Keeps call.name _) (counts.execute call.name _))
    ]
  ]

  tools-Keeps :
      (calls : List ToolCall) (r : Round) (p : Bool) → Keeps count (run_calls deps calls r p)
  unfolding run_calls
  tools-Keeps [] r p = Keeps-pure _
  tools-Keeps (call ∷ calls) r p = Keeps-bind _ _ (tool-Keeps call) (λ e. tools-Keeps calls _ _)

  module _ (n : ℕ) (next : Round → Exec W LoopEnd)
      (bounded : (r : Round) → Adds count n (next r)) where
    went : (x : Round × Bool) → Adds count n (go_on deps next x)
    went (r, p) = Adds-if n _ _ _ (bounded r) (Adds-Keeps n _ (Keeps-pure _))

    answered :
        (r : Round) (text : String) (calls : List ToolCall)
        → Adds count n (after_answer deps next r text calls)
    answered r text [] = Adds-Keeps n _ (Keeps-pure _)
    answered r text (c ∷ cs) = Adds-after n _ _ (tools-Keeps (c ∷ cs) _ false) went

    heard : (r : Round) (o : Option Response) → Adds count n (after_chat deps next r o)
    heard r none = Adds-Keeps n _ (Keeps-pure _)
    heard r (some response) = answered r response.text response.tool_calls

    round-Adds : (r : Round) (active : Bool) → Adds count (suc n) (unless_active deps next r active)
    round-Adds r true = Adds-Keeps (suc n) _ (Keeps-pure _)
    round-Adds r false = Adds-same (1 + 0 + 0 + n) (suc n) _ (omega arith) (
        Adds-bind (1 + 0 + 0) n _ _
          (Adds-catch (1 + 0 + 0) _ _
            (Adds-bind (1 + 0) 0 _ _ (counts.chat _ _) (λ a. Adds-Keeps 0 _ (Keeps-pure _)))
            (λ err. Keeps-pure _))
          (heard r))

  loop-Adds : (n : ℕ) (r : Round) → Adds count n (loop deps n r)
  unfolding loop
  loop-Adds zero r = Adds-Keeps 0 _ (Keeps-pure _)
  loop-Adds (suc n) r =
      Adds-after (suc n) _ _ counts.is_active (round-Adds n (loop deps n) (loop-Adds n) r)

  post-Keeps :
      (post : Exec W Posted) (active : Bool)
      → Keeps count post
      → Keeps count (unless_locked deps post active)
  post-Keeps post true k = Keeps-pure _
  post-Keeps post false k = Keeps-bind _ _ k (λ p. Keeps-pure _)

  outcome-Keeps :
      (c : String) (e : Option Escalation) (s : Option Settlement)
      → Keeps count (post_outcome deps c e s)
  unfolding post_outcome
  outcome-Keeps c (some e) s =
      Keeps-bind _ _ counts.is_active (λ b. post-Keeps _ b (counts.create_approbation e c))
  outcome-Keeps c none (some s) =
      Keeps-bind _ _ counts.is_active (λ b. post-Keeps _ b (counts.post_command _ c))
  outcome-Keeps c none none = Keeps-pure _

  end-Keeps : (c title : String) (e : LoopEnd) → Keeps count (conclude deps c title e)
  unfolding store_learning
  end-Keeps c title (stopped r) = Keeps-pure _
  end-Keeps c title (finished r fallback) =
      Keeps-bind _ _ (outcome-Keeps c r.pending r.candidate)
        λ p. Keeps-bind _ _ (counts.store _ c) λ u. Keeps-pure _

  started-Adds :
      (c : String) (task : TaskInput) (active : Bool)
      → Adds count max_iterations (unless_stopped deps c task active)
  started-Adds c task true = Adds-Keeps max_iterations _ (Keeps-pure _)
  started-Adds c task false = Adds-after 6 _ _ (counts.anonymize _) λ t.
      Adds-after 6 _ _ (counts.anonymize _)
        λ d. Adds-bind 6 0 _ _ (loop-Adds 6 _) λ e. Adds-Keeps 0 _ (end-Keeps c _ e)

  -- A task asks the language model at most as often as the limit of six iterations, whatever it answers and also where it throws.
  pub run_task-chats : (task : TaskInput) → Adds count max_iterations (run_task deps task)
  unfolding run_task
  run_task-chats task = Adds-after 6 _ _ counts.is_active (started-Adds _ task)
