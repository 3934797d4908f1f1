-- ===== src/Pipeline/ReadOnly.antt =====
-- The phases of `runPipeline` (buzz-hermes-bridge/src/pipeline.ts) that write nothing but the audit
-- log, over any repository whose reads and audit rows leave a view of the store as it was.
use assurance_toto.Prelude.{String, Option, List}
use assurance_toto.Json.{Json}
use assurance_toto.Commands.{Command, validate_command, Validated, valid, invalid}
use assurance_toto.Policy.{Role}
use assurance_toto.Exec.{Exec}
use assurance_toto.Exec.Keeps.{Keeps, keeps_rules, Keeps-bind, Keeps-pure, Keeps-if, Keeps-throw}
use assurance_toto.Rows.{KillSwitchRow}
use assurance_toto.Repository.Laws.{ReadsKeep, Keeps-in_transaction}
use assurance_toto.Audit.{AuditEntry, append_audit, read_last_hash}
use assurance_toto.Dlq.{DlqEntry}
use assurance_toto.Pipeline.Types.{
  Deps, World, Envelope, PipelineResult, on_db, append, safe_audit, parse_content, resolve_role,
}
use assurance_toto.Pipeline.Checks.{
  refuse, admit, by_validity, check_fresh, unless_locked, check_author, check_policy,
}

-- All of the world but the rest of the store.
pub record Outside (V P : Type 0) : Type 0 where
  pub business : V
  pub dlq : List DlqEntry
  pub posted : P

module _ {S P V : Type 0} (view : S → V) where
  abbrev pub outside : World S P → Outside V P
  outside w = record { business = view w.db; dlq = w.dlq; posted = w.posted }

  pub Keeps-on_db : {A : Type 0} (m : Exec S A) → Keeps view m → Keeps outside (on_db {P = P} m)
  unfolding on_db
  Keeps-on_db m k = record {
    at = λ w i. record { business = k.at w.db i; dlq = w.dlq; posted = w.posted };
  }

module _ {S P V : Type 0} (view : S → V) (deps : Deps S P) (laws : ReadsKeep view deps.repo) where
  Keeps-read_last_hash : Keeps view (read_last_hash deps.sha256 deps.repo)
  unfolding read_last_hash
  Keeps-read_last_hash =
      Keeps-bind _ _ (Keeps-in_transaction _ laws laws.last_hash) (λ reply. Keeps-pure _)

  Keeps-append_audit : (e : AuditEntry) → Keeps view (append_audit deps.sha256 deps.repo e)
  unfolding append_audit
  Keeps-append_audit e = search (keeps_rules, Keeps-read_last_hash, laws.append_audit)

  pub Keeps-append :
      (c action : String) (p : Json) → Keeps (outside {P = P} view) (append deps c action p)
  unfolding append
  Keeps-append c action p = search (Keeps-on_db, Keeps-append_audit)

  pub Keeps-safe_audit :
      (c action : String) (p : Json) → Keeps (outside {P = P} view) (safe_audit deps c action p)
  unfolding safe_audit
  Keeps-safe_audit c action p = search (keeps_rules, Keeps-append)

  module _ (env : Envelope) (c : String) where
    Keeps-refuse :
        (action : String) (p : Json) (r : PipelineResult)
        → Keeps (outside {P = P} view) (refuse deps env c action p r)
    Keeps-refuse action p r = Keeps-bind _ _ (Keeps-safe_audit c action p) (λ u. Keeps-pure _)

    Keeps-check_policy :
        (cmd : Command) (role : Role) (k : Option KillSwitchRow)
        → Keeps (outside {P = P} view) (check_policy deps env c cmd role k)
    unfolding check_policy
    Keeps-check_policy cmd role k =
        search
          (keeps_rules, Keeps-safe_audit, Keeps-on_db, laws.find_sinistre, laws.is_command_consumed)

    Keeps-unless_locked :
        (cmd : Command) (role : Role) (k : Option KillSwitchRow)
        → Keeps (outside {P = P} view) (unless_locked deps env c cmd role k)
    Keeps-unless_locked cmd role k =
        Keeps-if _ _ _
          (Keeps-bind _ _ (Keeps-safe_audit c "command.killswitch_blocked" _) (λ u. Keeps-throw _))
          (Keeps-check_policy cmd role k)

    Keeps-check_author :
        (cmd : Command) → Keeps (outside {P = P} view) (check_author deps env c cmd)
    unfolding check_author
    Keeps-check_author cmd = Keeps-if _ _ _ (Keeps-refuse _ _ _) (
        Keeps-bind _ _ (Keeps-on_db view _ laws.get_kill_switch)
          (Keeps-unless_locked cmd (resolve_role deps env)))

    Keeps-check_fresh : (cmd : Command) → Keeps (outside {P = P} view) (check_fresh deps env c cmd)
    unfolding check_fresh
    Keeps-check_fresh cmd =
        search
          (keeps_rules, Keeps-safe_audit, Keeps-on_db, laws.is_command_consumed, Keeps-check_author)

    by_validity-Keeps : (v : Validated) → Keeps (outside {P = P} view) (by_validity deps env c v)
    by_validity-Keeps (valid cmd id) = Keeps-check_fresh cmd
    by_validity-Keeps (invalid errors) = search (keeps_rules, Keeps-safe_audit)

    -- Deciding about a command writes to the audit log only: the view of the store, the dead-letter
    -- queue and the messages stay, whatever the outcome and also where the decision throws.
    pub admit-Keeps : Keeps (outside {P = P} view) (admit deps env c)
    unfolding admit
    admit-Keeps =
        by_validity-Keeps (validate_command deps.schema_errors (parse_content deps env.content))
