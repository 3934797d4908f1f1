-- ===== src/Pipeline/Progress.antt =====
-- That `processInboundCommand` (buzz-hermes-bridge/src/pipeline.ts) carries out what it may carry out,
-- on the store in memory and with any adapter.
use assurance_toto.Prelude.{String, true, false, not, ◌&&◌, ◌≡◌, refl, member}
use assurance_toto.Commands.{Command, validate_command, valid}
use assurance_toto.Policy.{evaluate, is_locked, is_deactivate}
use assurance_toto.Exec.{ok, ◌>>=◌}
use assurance_toto.Repository.Memory.{MemoryState}
use assurance_toto.Pipeline.Types.{Deps, World, Envelope, parse_content, resolve_role, on_db}
use assurance_toto.Pipeline.Checks.{admit, admitted, check_fresh, check_author, context}
use assurance_toto.Pipeline.Authority.{is_forged}
use assurance_toto.Pipeline.InMemory.{in_memory, claim_row, check_policy-memory}
use assurance_toto.Pipeline.Books.{books, book, consume}
use assurance_toto.Pipeline.Performed.{Ended, IsExecuted}
use assurance_toto.Pipeline.Total.{run, correlation, command_key, admitted-run}

module _ {P : Type 0} (deps : Deps MemoryState P) (env : Envelope) (w : World MemoryState P) where
  -- What a command needs to be carried out.
  pub record MayRun (cmd : Command) : Type 0 where
    pub unforged : is_forged (in_memory deps) env ≡ false
    pub fresh : member (command_key deps env w) w.db.consumed ≡ false
    pub unlocked : (is_locked w.db.kill_switch && not (is_deactivate cmd)) ≡ false
    pub policy_allowed :
        (evaluate cmd
          (context
            (in_memory deps)
            env
            (correlation deps env w)
            w.db.kill_switch
            (claim_row cmd w.db)
            false)
          (resolve_role (in_memory deps) env)).allowed
        ≡ true

  admit-MayRun :
      (cmd : Command) (id : String)
      → validate_command deps.schema_errors (parse_content (in_memory deps) env.content)
        ≡ valid cmd id
      → MayRun cmd
      → (admit (in_memory deps) env (correlation deps env w) w).0
        ≡ ok (admitted cmd (resolve_role (in_memory deps) env))
  unfolding admit check_fresh check_author ◌>>=◌ on_db
  admit-MayRun cmd id v may =
      let fresh = may.fresh in
      let unforged = may.unforged in
      let unlocked = may.unlocked in
      let allowed = may.policy_allowed in
      rw
        (
          v,
          fresh,
          unforged,
          unlocked,
          check_policy-memory deps env (correlation deps env w) cmd
              (resolve_role (in_memory deps) env) w.db.kill_switch w,
          fresh,
          allowed,
        )
        refl

  -- A valid command whose envelope is not a forged one, whose content was not consumed, which the
  -- kill-switch does not stop and which the policy allows to its author on the stored claim is executed:
  -- the run returns, whatever the adapter does, and the books hold its mark and its effect.
  pub process-executes :
      (cmd : Command) (id : String)
      → validate_command deps.schema_errors (parse_content (in_memory deps) env.content)
        ≡ valid cmd id
      → MayRun cmd
      → Ended
          (IsExecuted deps env (correlation deps env w) cmd (resolve_role (in_memory deps) env))
          (book deps.now deps.threshold_eur
            (correlation deps env w)
            cmd
            (consume (command_key deps env w) (books w.db)))
          (run deps env w)
  process-executes cmd id v may =
      admitted-run deps env w cmd (resolve_role (in_memory deps) env) (admit-MayRun cmd id v may)
