-- ===== src/Pipeline/Performed.antt =====
-- `perform` of buzz-hermes-bridge/src/pipeline.ts on the store in memory, with any adapter: a fresh
-- command is executed, and the books change by its effect and its mark alone.
use assurance_toto.Prelude.{
  inl, Bool-cases, subst, includes, String, Bool, true, false, Option, none, some, ◌≡◌, refl, ap,
  ◌∙◌, arith, member, lookup,
}
use assurance_toto.Json.{Json}
use assurance_toto.Commands.{Command, claim_settlement_approve, claim_settlement_reject}
use assurance_toto.Policy.{Role}
use assurance_toto.Exec.{continue, pure, handle, Exec, Result, ok, thrown, catch, ◌>>=◌}
use assurance_toto.Exec.Returns.{bind_ok}
use assurance_toto.Rows.{is_en_attente, ApprobationRow, executed}
use assurance_toto.Repository.Laws.{in_transaction_ok}
use assurance_toto.Prelude.{inl, inr}
use assurance_toto.Repository.{in_transaction, sql}
use assurance_toto.Repository.Memory.{MemoryState, memory_repository, memory_query, decide_found}
use assurance_toto.Audit.MemoryLog.{append_audit-memory}
use assurance_toto.Audit.Chain.{tip}
use assurance_toto.Audit.{compute_audit_hash}
use assurance_toto.Pipeline.Effects.{business_effect}
use assurance_toto.Pipeline.Types.{
  put_db, put_posted, Deps, World, Envelope, PipelineResult, on_db, on_posted, append, safe_audit,
  command_id_of_env,
}
use assurance_toto.Pipeline.Execution.{
  mark_consumed, resolve_approbation, answer_channel, act, perform,
}
use assurance_toto.Pipeline.InMemory.{in_memory}
use assurance_toto.Pipeline.Books.{Books, books, consume, book, effect-books}

-- The run returned `a` where `Q a`, and left the books `b`.
pub record Ended {P A : Type 0} (Q : A → Type 0) (b : Books) (run : Result A × World MemoryState P)
    : Type 0 where
  pub value : A
  pub returned : run.0 ≡ ok value
  pub holds : Q value
  pub left : books run.1.db ≡ b

module _ {P A B : Type 0} {Q : A → Type 0} {R : B → Type 0} where
  -- A bind whose first part ended.
  Ended-bind :
      (m : Exec (World MemoryState P) A) (f : A → Exec (World MemoryState P) B)
      (w : World MemoryState P) (b b' : Books)
      → Ended Q b (m w)
      → ((a : A) (t : World MemoryState P) → Q a → books t.db ≡ b → Ended R b' (f a t))
      → Ended R b' ((m >>= f) w)
  Ended-bind m f w b b' e k =
      rw (bind_ok m f w e.value e.returned) (k e.value (m w).1 e.holds e.left)

module _ {P : Type 0} (deps : Deps MemoryState P) where
  append-Ended :
      (c action : String) (p : Json) (w : World MemoryState P)
      → Ended (λ h. Unit {0}) (books w.db) (append (in_memory deps) c action p w)
  unfolding append on_db
  append-Ended c action p w = rw (append_audit-memory deps.sha256 deps.now _ w.db) (record {
    value = compute_audit_hash deps.sha256 (tip "" w.db.audit) p;
    returned = refl;
    holds = tt;
    left = refl;
  })

  mark_consumed-Ended :
      (id c : String) (cmd : Command) (w : World MemoryState P)
      → member id w.db.consumed ≡ false
      → Ended (λ b. b ≡ true) (consume id (books w.db)) (mark_consumed (in_memory deps) id c cmd w)
  unfolding mark_consumed in_transaction on_db ◌>>=◌ memory_query sql includes
  mark_consumed-Ended id c (claim_settlement_approve _ _ _ _ _) w fresh =
      rw fresh (record { value = true; returned = refl; holds = refl; left = ground arith })
  mark_consumed-Ended id c (claim_settlement_reject _ _ _ _) w fresh =
      rw fresh (record { value = true; returned = refl; holds = refl; left = ground arith })
  mark_consumed-Ended id c _ w fresh =
      rw fresh (record { value = true; returned = refl; holds = refl; left = refl })

  effect-Ended :
      (c : String) (cmd : Command) (w : World MemoryState P)
      → Ended
          (λ e. Unit {0})
          (book deps.now deps.threshold_eur c cmd (books w.db))
          (on_db
            (in_transaction
              (memory_repository deps.now)
              (business_effect (memory_repository deps.now) deps.threshold_eur c cmd))
            w)
  unfolding on_db
  effect-Ended c cmd w =
      let (effect, returned, left) = effect-books deps.now deps.threshold_eur c cmd w.db in
      rw
        (in_transaction_ok (memory_repository deps.now)
          (business_effect (memory_repository deps.now) deps.threshold_eur c cmd) w.db effect
          returned)
        (record { value = effect; returned = refl; holds = tt; left = left })

  resolved :
      (c by reason : String) (approve : Bool) (found : Option ApprobationRow)
      (w : World MemoryState P)
      → Ended
          (λ u. Unit {0})
          (books w.db)
          (handle
            (λ err. pure tt)
            (continue
              (λ row. pure tt)
              (put_db w (decide_found deps.now c by reason approve found w.db))))
  resolved c by reason approve none w = record {
    value = tt;
    returned = refl;
    holds = tt;
    left = refl;
  }
  resolved c by reason approve (some a) w = elim (Bool-cases (is_en_attente a.statut)) [
    | inl pending ↦ rw pending (record { value = tt; returned = refl; holds = tt; left = refl })
    | inr done ↦ rw done (record { value = tt; returned = refl; holds = tt; left = refl })
  ]

  resolve-Ended :
      (c : String) (cmd : Command) (w : World MemoryState P)
      → Ended (λ u. Unit {0}) (books w.db) (resolve_approbation (in_memory deps) c cmd w)
  unfolding resolve_approbation catch ◌>>=◌ on_db
  resolve-Ended c (claim_settlement_approve _ _ reason by _) w =
      resolved c by reason true (lookup c w.db.approbations) w
  resolve-Ended c (claim_settlement_reject _ reason by _) w =
      resolved c by reason false (lookup c w.db.approbations) w
  resolve-Ended c _ w = record { value = tt; returned = refl; holds = tt; left = refl }

  safe_audit-Ended :
      (c action : String) (p : Json) (w : World MemoryState P)
      → Ended (λ u. Unit {0}) (books w.db) (safe_audit (in_memory deps) c action p w)
  unfolding safe_audit append on_db catch ◌>>=◌
  safe_audit-Ended c action p w =
      rw (append_audit-memory deps.sha256 deps.now _ w.db)
        (record { value = tt; returned = refl; holds = tt; left = refl })

  posted :
      (r : Result String) (p : P) (w : World MemoryState P)
      → Ended
          (λ e. Unit {0})
          (books w.db)
          (handle (λ err. pure deps.local_event_id) (put_posted w (r, p)))
  posted (ok id) p w = record { value = id; returned = refl; holds = tt; left = refl }
  posted (thrown e) p w = record {
    value = deps.local_event_id;
    returned = refl;
    holds = tt;
    left = refl;
  }

  post-Ended :
      (m : Exec P String) (w : World MemoryState P)
      → Ended (λ e. Unit {0}) (books w.db) (catch (on_posted m) (λ err. pure deps.local_event_id) w)
  unfolding catch on_posted
  post-Ended m w = let (r, p) = m w.posted in posted r p w

  module _ (env : Envelope) (c : String) (cmd : Command) (role : Role) where
    abbrev pub IsExecuted : PipelineResult → Type 0
    IsExecuted r = (r.outcome ≡ executed) × (r.correlation_id ≡ c)

    answer_channel-Ended :
        (hash : String) (effect : Json) (w : World MemoryState P)
        → Ended IsExecuted
            (books w.db)
            (answer_channel (in_memory deps) env c cmd role hash effect w)
    unfolding answer_channel
    answer_channel-Ended hash effect w =
        Ended-bind _ _ w (books w.db) _ (post-Ended _ w) λ id t u e. rw (← e) (
          Ended-bind _ _ t (books t.db) _ (safe_audit-Ended c "command.executed" _ t)
            λ v t' u' e'. record { value = _; returned = refl; holds = (refl, refl); left = e' })

    act-Ended :
        (w : World MemoryState P)
        → Ended IsExecuted
            (book deps.now deps.threshold_eur c cmd (books w.db))
            (act (in_memory deps) env c cmd role w)
    unfolding act
    act-Ended w = Ended-bind _ _ w (books w.db) _ (append-Ended c _ _ w) λ hash t u e.
        Ended-bind _ _ t _ _ (effect-Ended c cmd t) λ effect t' u' e'.
          Ended-bind _ _ t' _ _ (resolve-Ended c cmd t') λ v t'' u'' e''.
            subst
              (λ (b : Books).
                Ended IsExecuted b (answer_channel (in_memory deps) env c cmd role hash effect t''))
              (e'' ∙ e' ∙ ap (book deps.now deps.threshold_eur c cmd) e)
              (answer_channel-Ended hash effect t'')

    -- On the store in memory and with any adapter, performing a command that was not consumed returns an
    -- execution under its correlation id; the books then hold the command's mark and its effect, and
    -- nothing else has changed in them.
    pub perform-Ended :
        (w : World MemoryState P)
        → member (command_id_of_env (in_memory deps) env) w.db.consumed ≡ false
        → Ended IsExecuted
            (book deps.now deps.threshold_eur c cmd
              (consume (command_id_of_env (in_memory deps) env) (books w.db)))
            (perform (in_memory deps) env c cmd role w)
    unfolding perform
    perform-Ended w fresh =
        Ended-bind _ _ w _ _ (mark_consumed-Ended _ c cmd w fresh)
          λ b t marked e. rw (marked, ← e) (act-Ended t)
