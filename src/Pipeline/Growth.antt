-- ===== src/Pipeline/Growth.antt =====
-- What buzz-hermes-bridge/src/pipeline.ts does to the audit log of the store in memory.
use assurance_toto.Pipeline.InMemory.{in_memory}
use assurance_toto.Policy.{Role}
use assurance_toto.Pipeline.{
  false, true, admitted, some, early, process_inbound_command, recover, dead_letter, run_pipeline,
  after_admission, PipelineError,
}
use assurance_toto.Json.{Json}
use assurance_toto.Dlq.{DlqEntry}
use assurance_toto.Commands.{
  policy_pricing_exception_approve, agent_killswitch_deactivate, agent_killswitch_activate,
  finance_report_request, claim_settlement_reject, invalid, claim_settlement_approve, valid,
  Command, Validated, validate_command,
}
use assurance_toto.Pipeline.Execution.{
  resolve, resolve_approbation, mark_consumed, link_claim, perform, answer_channel, once_marked,
  marked, act,
}
use assurance_toto.Pipeline.Effects.{business_effect, settle_claim_effect}
use assurance_toto.Pipeline.Checks.{
  check_fresh, Admission, check_author, admit, check_policy, by_validity, refuse, unless_locked,
}
use assurance_toto.Prelude.{
  inr, inl, Bool-cases, ◌≡◌, suc, lookup, Option, Bool, String, List, ℕ, zero, refl, none,
}
use assurance_toto.Exec.{Exec, Result, ok, thrown, Thrown}
use assurance_toto.Exec.Keeps.{Keeps}
use assurance_toto.Exec.Preserves.{
  Preserves, Preserves-view, Preserves-catch, Preserves-if, Preserves-bind, preserves_rules,
  Preserves-pure, Preserves-throw,
}
use assurance_toto.Rows.{is_en_attente, ApprobationRow, AuditRow, KillSwitchRow}
use assurance_toto.Repository.{Query, close, in_transaction}
use assurance_toto.Repository.Memory.{decide_found, MemoryState, memory_repository}
use assurance_toto.Audit.Growth.{Grown, audit_of, query-audit, append_audit-Grown}
use assurance_toto.Pipeline.Types.{
  enqueue_entry, Envelope, append, safe_audit, Deps, World, on_db, on_posted, PipelineResult,
  parse_content, resolve_role,
}

module _ {P : Type 0} (deps : Deps MemoryState P) (base : List AuditRow) where
  abbrev pub GrownStore : MemoryState → Type 0
  GrownStore st = Grown deps.sha256 base (audit_of st)

  abbrev pub GrownWorld : World MemoryState P → Type 0
  GrownWorld w = GrownStore w.db

  pub Preserves-on_db :
      {A : Type 0} (m : Exec MemoryState A)
      → Preserves GrownStore m
      → Preserves GrownWorld (on_db m)
  unfolding on_db
  Preserves-on_db m p = record { at = λ w g. p.at w.db g }

  Preserves-on_posted : {A : Type 0} (m : Exec P A) → Preserves GrownWorld (on_posted m)
  unfolding on_posted
  Preserves-on_posted m = record { at = λ w g. g }

  closed :
      {A : Type 0} (undo : MemoryState → MemoryState) (r : Result A) (st : MemoryState)
      → ((t : MemoryState) → GrownStore t → GrownStore (undo t))
      → GrownStore st
      → GrownStore (close undo (r, st)).1
  closed undo (ok a) st u g = g
  closed undo (thrown e) st u g = u st g

  Preserves-in_transaction :
      {A : Type 0} (m : Exec MemoryState A)
      → Preserves GrownStore m
      → Preserves GrownStore (in_transaction (memory_repository deps.now) m)
  unfolding in_transaction
  Preserves-in_transaction m p = record {
    at = λ st g. let kept = p.at st g in let (r, t) = m st in closed _ r t (λ u h. h) kept;
  }

  -- A store action that leaves the log.
  pub reading : {A : Type 0} (m : Exec MemoryState A) → Keeps audit_of m → Preserves GrownStore m
  reading m k = Preserves-view (Grown deps.sha256 base) m k

  Preserves-query : (q : Query) → Preserves GrownStore ((memory_repository deps.now).query q)
  Preserves-query q = reading _ (record { at = λ st. query-audit deps.now q st })

  Preserves-append :
      (c action : String) (p : Json) → Preserves GrownWorld (append (in_memory deps) c action p)
  unfolding append
  Preserves-append c action p = Preserves-on_db _ (append_audit-Grown deps.sha256 deps.now base _)

  Preserves-safe_audit :
      (c action : String) (p : Json) → Preserves GrownWorld (safe_audit (in_memory deps) c action p)
  unfolding safe_audit
  Preserves-safe_audit c action p = search (preserves_rules, Preserves-append)

  Preserves-statement :
      (q : Query)
      → Preserves GrownWorld (
          on_db
            (in_transaction (memory_repository deps.now) ((memory_repository deps.now).query q)))
  Preserves-statement q = Preserves-on_db _ (Preserves-in_transaction _ (Preserves-query q))

  decide_found-audit :
      (c by reason : String) (approve : Bool) (o : Option ApprobationRow) (st : MemoryState)
      → (decide_found deps.now c by reason approve o st).1.audit ≡ st.audit
  decide_found-audit c by reason approve none st = refl
  decide_found-audit c by reason approve (some a) st = elim (Bool-cases (is_en_attente a.statut)) [
    | inl p ↦ rw p
    | inr p ↦ rw p
  ]

  pub Preserves-decide :
      (c by reason : String) (approve : Bool)
      → Preserves GrownWorld
          (on_db ((memory_repository deps.now).decide_approbation c by reason approve))
  Preserves-decide c by reason approve = Preserves-on_db _ (
      reading _ (record {
        at = λ st. decide_found-audit c by reason approve (lookup c st.approbations) st;
      }))

  module _ (env : Envelope) (c : String) where
    Preserves-refuse :
        (action : String) (p : Json) (r : PipelineResult)
        → Preserves GrownWorld (refuse (in_memory deps) env c action p r)
    Preserves-refuse action p r =
        Preserves-bind _ _ (Preserves-safe_audit c action p) (λ u. Preserves-pure _)

    Preserves-check_policy :
        (cmd : Command) (role : Role) (k : Option KillSwitchRow)
        → Preserves GrownWorld (check_policy (in_memory deps) env c cmd role k)
    unfolding check_policy
    Preserves-check_policy cmd role k =
        Preserves-bind _ _
          (Preserves-if _ _ _ (Preserves-on_db _ (reading _ (record { at = λ st. refl })))
            (Preserves-pure _))
          λ claim.
            Preserves-bind _ _ (Preserves-on_db _ (reading _ (record { at = λ st. refl })))
              λ already. Preserves-if _ _ _ (Preserves-refuse _ _ _) (Preserves-pure _)

    Preserves-unless_locked :
        (cmd : Command) (role : Role) (k : Option KillSwitchRow)
        → Preserves GrownWorld (unless_locked (in_memory deps) env c cmd role k)
    Preserves-unless_locked cmd role k =
        Preserves-if _ _ _
          (Preserves-bind _ _ (Preserves-safe_audit c "command.killswitch_blocked" _)
            (λ u. Preserves-throw _))
          (Preserves-check_policy cmd role k)

    Preserves-check_author :
        (cmd : Command) → Preserves GrownWorld (check_author (in_memory deps) env c cmd)
    unfolding check_author
    Preserves-check_author cmd = Preserves-if _ _ _ (Preserves-refuse _ _ _) (
        Preserves-bind _ _ (Preserves-on_db _ (reading _ (record { at = λ st. refl })))
          (Preserves-unless_locked cmd (resolve_role (in_memory deps) env)))

    Preserves-check_fresh :
        (cmd : Command) → Preserves GrownWorld (check_fresh (in_memory deps) env c cmd)
    unfolding check_fresh
    Preserves-check_fresh cmd =
        Preserves-bind _ _ (Preserves-on_db _ (reading _ (record { at = λ st. refl })))
          λ already. Preserves-if _ _ _ (Preserves-refuse _ _ _) (Preserves-check_author cmd)

    by_validity-Preserves :
        (v : Validated) → Preserves GrownWorld (by_validity (in_memory deps) env c v)
    by_validity-Preserves (valid cmd id) = Preserves-check_fresh cmd
    by_validity-Preserves (invalid errors) = Preserves-refuse _ _ _

    Preserves-admit : Preserves GrownWorld (admit (in_memory deps) env c)
    unfolding admit
    Preserves-admit =
        by_validity-Preserves
          (validate_command deps.schema_errors (parse_content (in_memory deps) env.content))

    Preserves-link_claim :
        (cmd : Command) → Preserves GrownWorld (link_claim (in_memory deps) c cmd)
    Preserves-link_claim cmd =
        Preserves-if _ _ _ (Preserves-bind _ _ (Preserves-statement _) (λ u. Preserves-pure _))
          (Preserves-pure _)

    Preserves-marked :
        (cmd : Command) (n : ℕ) → Preserves GrownWorld (marked (in_memory deps) c cmd n)
    Preserves-marked cmd zero = Preserves-pure _
    Preserves-marked cmd (suc n) = Preserves-link_claim cmd

    Preserves-mark_consumed :
        (id : String) (cmd : Command)
        → Preserves GrownWorld (mark_consumed (in_memory deps) id c cmd)
    unfolding mark_consumed
    Preserves-mark_consumed id cmd =
        Preserves-bind _ _ (Preserves-statement _) (λ r. Preserves-marked cmd _)

    Preserves-resolve :
        (by reason : String) (approve : Bool)
        → Preserves GrownWorld (resolve (in_memory deps) c by reason approve)
    Preserves-resolve by reason approve =
        Preserves-catch _ _
          (Preserves-bind _ _ (Preserves-decide c by reason approve) (λ u. Preserves-pure _))
          (λ e. Preserves-pure _)

    Preserves-resolve_approbation :
        (cmd : Command) → Preserves GrownWorld (resolve_approbation (in_memory deps) c cmd)
    unfolding resolve_approbation
    Preserves-resolve_approbation (claim_settlement_approve _ _ reason by _) =
        Preserves-resolve by reason true
    Preserves-resolve_approbation (claim_settlement_reject _ reason by _) =
        Preserves-resolve by reason false
    Preserves-resolve_approbation _ = Preserves-pure _

    Preserves-settle :
        (claim : String) (m : ℕ)
        → Preserves GrownStore
            (settle_claim_effect (memory_repository deps.now) deps.threshold_eur c claim m)
    unfolding settle_claim_effect
    Preserves-settle claim m = Preserves-bind _ _ (Preserves-query _) λ r.
        Preserves-bind _ _ (Preserves-query _)
          λ u. Preserves-bind _ _ (Preserves-query _) (λ v. Preserves-pure _)

    Preserves-business_effect :
        (cmd : Command)
        → Preserves GrownStore
            (business_effect (memory_repository deps.now) deps.threshold_eur c cmd)
    unfolding business_effect
    Preserves-business_effect (claim_settlement_approve id m _ _ _) = Preserves-settle id m
    Preserves-business_effect (claim_settlement_reject id _ _ _) =
        Preserves-bind _ _ (Preserves-query _)
          λ r. Preserves-bind _ _ (Preserves-query _) (λ u. Preserves-pure _)
    Preserves-business_effect (finance_report_request p _ _ _) = Preserves-pure _
    Preserves-business_effect (agent_killswitch_activate by _ _) =
        Preserves-bind _ _ (Preserves-query _) (λ u. Preserves-pure _)
    Preserves-business_effect (agent_killswitch_deactivate by _ _) =
        Preserves-bind _ _ (Preserves-query _) (λ u. Preserves-pure _)
    Preserves-business_effect (policy_pricing_exception_approve id m r by at) =
        Preserves-bind _ _ (Preserves-query _) (λ u. Preserves-pure _)

    module _ (cmd : Command) (role : Role) where
      Preserves-answer_channel :
          (hash : String) (effect : Json)
          → Preserves GrownWorld (answer_channel (in_memory deps) env c cmd role hash effect)
      unfolding answer_channel
      Preserves-answer_channel hash effect =
          Preserves-bind _ _ (Preserves-catch _ _ (Preserves-on_posted _) (λ e. Preserves-pure _))
            λ id. Preserves-bind _ _ (Preserves-safe_audit _ _ _) (λ u. Preserves-pure _)

      Preserves-act : Preserves GrownWorld (act (in_memory deps) env c cmd role)
      unfolding act
      Preserves-act = Preserves-bind _ _ (Preserves-append _ _ _) λ hash.
          Preserves-bind _ _
            (Preserves-on_db _ (Preserves-in_transaction _ (Preserves-business_effect cmd)))
            λ effect.
              Preserves-bind _ _ (Preserves-resolve_approbation cmd)
                (λ u. Preserves-answer_channel hash effect)

      Preserves-once_marked :
          (b : Bool) → Preserves GrownWorld (once_marked (in_memory deps) env c cmd role b)
      Preserves-once_marked true = Preserves-act
      Preserves-once_marked false =
          Preserves-bind _ _ (Preserves-safe_audit _ _ _) (λ u. Preserves-pure _)

      Preserves-perform : Preserves GrownWorld (perform (in_memory deps) env c cmd role)
      unfolding perform
      Preserves-perform = Preserves-bind _ _ (Preserves-mark_consumed _ cmd) Preserves-once_marked

    Preserves-after_admission :
        (a : Admission) → Preserves GrownWorld (after_admission (in_memory deps) env c a)
    Preserves-after_admission (early r) = Preserves-pure _
    Preserves-after_admission (admitted cmd role) = Preserves-perform cmd role

    Preserves-run_pipeline : Preserves GrownWorld (run_pipeline (in_memory deps) env c)
    unfolding run_pipeline
    Preserves-run_pipeline = Preserves-bind _ _ Preserves-admit Preserves-after_admission

    Preserves-enqueue :
        (entry : DlqEntry) → Preserves GrownWorld (enqueue_entry (in_memory deps) entry)
    unfolding enqueue_entry
    Preserves-enqueue entry = record { at = λ w g. g }

    Preserves-dead_letter :
        (pe : PipelineError) → Preserves GrownWorld (dead_letter (in_memory deps) env c pe)
    unfolding dead_letter
    Preserves-dead_letter pe =
        Preserves-bind _ _ (Preserves-enqueue _)
          λ u. Preserves-bind _ _ (Preserves-safe_audit _ _ _) (λ v. Preserves-pure _)

    Preserves-recover : (err : Thrown) → Preserves GrownWorld (recover (in_memory deps) env c err)
    unfolding recover
    Preserves-recover err = Preserves-if _ _ _ (Preserves-throw _) (Preserves-dead_letter _)

  pub process-Preserves :
      (env : Envelope) → Preserves GrownWorld (process_inbound_command (in_memory deps) env)
  unfolding process_inbound_command
  process-Preserves env =
      Preserves-catch _ _ (Preserves-run_pipeline env _) (Preserves-recover env _)
