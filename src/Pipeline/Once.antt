-- ===== src/Pipeline/Once.antt =====
-- What follows of `processInboundCommand` (buzz-hermes-bridge/src/pipeline.ts) on the store in memory:
-- one content is executed once, and an executed settlement met the policy on the stored claim.
use assurance_toto.Prelude.{
  subst, ℕ, String, true, false, Option-cases, ◌&&◌, Option, none, some, List, [], ◌∷◌, ◌++◌, ◌≡◌,
  ◌≢◌, refl, ap, ◌∙◌, arith, member, lookup, inl, inr, eq_refl, or_else,
}
use assurance_toto.Commands.{
  Command, claim_settlement_approve, claim_settlement_reject, policy_pricing_exception_approve,
  agent_killswitch_activate, agent_killswitch_deactivate, finance_report_request, validate_command,
  valid,
}
use assurance_toto.Policy.{
  Role, is_locked, evaluate, evaluate_type, evaluate_claim_approve, PolicyContext,
}
use assurance_toto.Policy.Decisions.{MaySettle, evaluate-approve_iff}
use assurance_toto.Exec.{ok}
use assurance_toto.Rows.{SinistreRow, KillSwitchRow, executed}
use assurance_toto.Repository.Memory.{MemoryState}
use assurance_toto.Pipeline.Types.{
  resolve_role, Deps, World, Envelope, PipelineResult, parse_content, command_id_of_env,
}
use assurance_toto.Pipeline.InMemory.{in_memory}
use assurance_toto.Pipeline.Books.{Books, books, consume, book}
use assurance_toto.Pipeline.Guards.{process-consumed}
use assurance_toto.Pipeline.Total.{DidNoHarm, Executed, process-total, run, command_key}

member-snoc : (x : String) (xs : List String) → member x (xs ++ x ∷ []) ≡ true
unfolding member
member-snoc x [] = rw (eq_refl x)
member-snoc x (y ∷ ys) = ground (arith, member-snoc x ys)

consumed-book :
    (now : String) (threshold : ℕ) (c : String) (cmd : Command) (b : Books)
    → (book now threshold c cmd b).consumed ≡ b.consumed
consumed-book now threshold c (claim_settlement_approve _ _ _ _ _) b = refl
consumed-book now threshold c (claim_settlement_reject _ _ _ _) b = refl
consumed-book now threshold c (agent_killswitch_activate _ _ _) b = refl
consumed-book now threshold c (agent_killswitch_deactivate _ _ _) b = refl
consumed-book now threshold c (policy_pricing_exception_approve _ _ _ _ _) b = refl
consumed-book now threshold c (finance_report_request _ _ _ _) b = refl

not-locked : (k : Option KillSwitchRow) → (is_locked k && true) ≡ false → is_locked k ≡ false
not-locked none h = refl
not-locked (some k) h = ground arith

missing-denied :
    (claim : String) (m : ℕ) (reason by at : String) (ctx : PolicyContext) (role : Role)
    → ctx.sinistre ≡ none
    → (evaluate (claim_settlement_approve claim m reason by at) ctx role).allowed ≢ true
unfolding evaluate evaluate_type evaluate_claim_approve
missing-denied claim m reason by at ctx role missing h = ground (arith, missing)

module _ {P : Type 0} (deps : Deps MemoryState P) (env : Envelope) (w : World MemoryState P) where
  -- A run that reports an execution is an execution.
  executed-is :
      (result : PipelineResult)
      → (run deps env w).0 ≡ ok result
      → result.outcome ≡ executed
      → Executed deps env w
  executed-is result e o = elim (process-total deps env w) [
    | inl harmless ↦ absurd (harmless.not_executed result e o)
    | inr done ↦ done
  ]

  -- After a command was executed, whatever envelope brings the same content does no harm: nothing is
  -- executed, and all of the store but the audit log stays as the execution left it.
  pub process-once :
      (result : PipelineResult) (again : Envelope)
      → (run deps env w).0 ≡ ok result
      → result.outcome ≡ executed
      → again.content ≡ env.content
      → DidNoHarm deps again (run deps env w).1
  unfolding command_id_of_env
  process-once result again e o same =
      let done = executed-is result e o in
      let all : (run deps env w).1.db.consumed ≡ w.db.consumed ++ command_key deps env w ∷ [] =
        ap (λ (b : Books). b.consumed) done.ended.left
        ∙ consumed-book deps.now deps.threshold_eur (or_else env.correlation_id deps.fresh_id)
            done.command (consume (command_key deps env w) (books w.db)) in
      process-consumed deps again (run deps env w).1
        (rw (all, same) (member-snoc (command_key deps env w) w.db.consumed))

  -- If a valid settlement is reported as executed, the store held its claim, open or in treatment,
  -- within the requested cap and not blocked, and the role that `resolveRole` gives to the author of the
  -- envelope was the CEO's, or a claims agent's with the claim within the threshold; the kill-switch
  -- was off.
  pub process-settles :
      (result : PipelineResult) (claim : String) (max_amount : ℕ) (reason by at id : String)
      → validate_command deps.schema_errors (parse_content (in_memory deps) env.content)
        ≡ valid (claim_settlement_approve claim max_amount reason by at) id
      → (run deps env w).0 ≡ ok result
      → result.outcome ≡ executed
      → (s : SinistreRow) × (lookup claim w.db.sinistres ≡ some s)
        × MaySettle max_amount s deps.threshold_eur (resolve_role (in_memory deps) env)
        × (is_locked w.db.kill_switch ≡ false)
  process-settles result claim m reason by at id v e o =
      let done = executed-is result e o in
      let validated = done.authorised.validated in
      let allowed = done.checked.policy_allowed in
      let unlocked = done.checked.unlocked in
      let same : done.command ≡ claim_settlement_approve claim m reason by at = cc (v, validated) in
      let off : is_locked w.db.kill_switch ≡ false =
        not-locked w.db.kill_switch (rw same at unlocked) in
      elim (Option-cases (lookup claim w.db.sinistres)) [
        | inl missing ↦
            absurd (missing-denied claim m reason by at _ done.role missing (rw same at allowed))
        | inr (s, found) ↦ (
          s,
          found,
          subst (MaySettle m s deps.threshold_eur) done.authorised.role_resolved (
              (evaluate-approve_iff claim m reason by at _ s done.role found off refl).0
                (rw same at allowed)),
          off,
        )
      ]
