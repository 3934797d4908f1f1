-- ===== src/Pipeline/Safety.antt =====
-- What `processInboundCommand` (buzz-hermes-bridge/src/pipeline.ts) cannot be made to do by an author
-- without the authority, over any repository whose reads keep a view of the store.
use assurance_toto.Prelude.{
  String, true, false, not, ◌&&◌, ◌≡◌, ◌≢◌, refl, sym, ap, ◌∙◌, arith, or_else, member,
}
use assurance_toto.Commands.{Command, validate_command, valid}
use assurance_toto.Policy.{Role, ceo, agent_sinistres, requires_ceo}
use assurance_toto.Policy.Decisions.{evaluate-requires_ceo}
use assurance_toto.Exec.{Exec, Result, ok, thrown, Thrown, continue, catch, handle, ◌>>=◌}
use assurance_toto.Rows.{executed}
use assurance_toto.Repository.Laws.{ReadsKeep}
use assurance_toto.Pipeline.{
  PipelineError, run_pipeline, after_admission, process_inbound_command, recover, dead_letter,
}
use assurance_toto.Pipeline.Types.{
  Deps, World, Envelope, PipelineResult, parse_content, author_hex, resolve_role, enqueue_entry,
}
use assurance_toto.Pipeline.Checks.{Admission, early, admitted, admit}
use assurance_toto.Pipeline.ReadOnly.{Outside, outside, admit-Keeps, Keeps-safe_audit}
use assurance_toto.Pipeline.Authority.{Authorised, IsSound, admit-IsSound}
use assurance_toto.Exec.Keeps.{Keeps, Keeps-pure, Keeps-throw, Keeps-bind, Keeps-if}
use assurance_toto.Exec.Returns.{Returns, Returns-pure, Returns-throw, Returns-bind, Returns-if}
use assurance_toto.Dlq.{DlqEntry}

module _ {S P V : Type 0} (view : S → V) where
  abbrev pub stored : World S P → V
  stored w = view w.db

  Keeps-stored : {A : Type 0} (m : Exec (World S P) A) → Keeps (outside view) m → Keeps stored m
  Keeps-stored m k = record { at = λ w. ap (λ (o : Outside V P). o.business) (k.at w) }

abbrev IsNotExecuted : PipelineResult → Type 0
IsNotExecuted r = r.outcome ≢ executed

module _ {S P V : Type 0} (view : S → V) (deps : Deps S P) (laws : ReadsKeep view deps.repo) where
  Keeps-enqueue_entry : (e : DlqEntry) → Keeps (stored {P = P} view) (enqueue_entry deps e)
  unfolding enqueue_entry
  Keeps-enqueue_entry e = record { at = λ w. refl }

  dead_letter-Keeps :
      (env : Envelope) (c : String) (pe : PipelineError)
      → Keeps (stored view) (dead_letter deps env c pe)
  unfolding dead_letter
  dead_letter-Keeps env c pe = Keeps-bind _ _ (Keeps-enqueue_entry _) λ u.
      Keeps-bind _ _ (Keeps-stored view _ (Keeps-safe_audit view deps laws c "command.dlq" _))
        λ v. Keeps-pure _

  dead_letter-Returns :
      (env : Envelope) (c : String) (pe : PipelineError)
      → Returns IsNotExecuted (dead_letter deps env c pe)
  unfolding dead_letter
  dead_letter-Returns env c pe =
      Returns-bind _ _ λ u. Returns-bind _ _ λ v. Returns-pure _ (λ p. cc)

  recover-Keeps :
      (env : Envelope) (c : String) (err : Thrown) → Keeps (stored view) (recover deps env c err)
  unfolding recover
  recover-Keeps env c err = Keeps-if _ _ _ (Keeps-throw _) (dead_letter-Keeps env c _)

  recover-Returns :
      (env : Envelope) (c : String) (err : Thrown) → Returns IsNotExecuted (recover deps env c err)
  unfolding recover
  recover-Returns env c err = Returns-if _ _ _ (Returns-throw _) (dead_letter-Returns env c _)

  -- The run left the view as it was in `w`, and executed nothing.
  pub record Harmless (w : World S P) (run : Result PipelineResult × World S P) : Type 0 where
    pub kept : view run.1.db ≡ view w.db
    pub not_executed : (result : PipelineResult) → run.0 ≡ ok result → result.outcome ≢ executed

  module _ (env : Envelope) (w : World S P) where
    handled-Harmless :
        (c : String) (r : Result PipelineResult) (t : World S P)
        → view t.db ≡ view w.db
        → ((result : PipelineResult) → r ≡ ok result → result.outcome ≢ executed)
        → Harmless w (handle (recover deps env c) (r, t))
    handled-Harmless c (ok a) t k n = record { kept = k; not_executed = n }
    handled-Harmless c (thrown e) t k n = record {
      kept = (recover-Keeps env c e).at t ∙ k;
      not_executed = (recover-Returns env c e).at t;
    }

    resumed-Harmless :
        (c : String) (r : Result Admission) (t : World S P)
        → ((a : Admission) → r ≡ ok a → IsSound deps env a)
        → ((cmd : Command) (role : Role) → r ≢ ok (admitted cmd role))
        → view t.db ≡ view w.db
        → Harmless w (handle (recover deps env c) (continue (after_admission deps env c) (r, t)))
    resumed-Harmless c (ok (early result)) t sound nobody k =
        handled-Harmless c (ok result) t k (λ r e x. sound (early result) refl (cc))
    resumed-Harmless c (ok (admitted cmd role)) t sound nobody k = absurd (nobody cmd role refl)
    resumed-Harmless c (thrown e) t sound nobody k =
        handled-Harmless c (thrown e) t k (λ r x. absurd (cc))

    -- A command that `admit` lets not through does no harm.
    pub process-unadmitted :
        ((cmd : Command) (role : Role)
          → (admit deps env (or_else env.correlation_id deps.fresh_id) w).0
            ≢ ok (admitted cmd role))
        → Harmless w (process_inbound_command deps env w)
    unfolding process_inbound_command catch run_pipeline ◌>>=◌
    process-unadmitted nobody =
        let c : String = or_else env.correlation_id deps.fresh_id in
        let sound = (admit-IsSound deps env c).at w in
        let kept = (Keeps-stored view _ (admit-Keeps view deps laws env c)).at w in
        let (r, t) = admit deps env c w in resumed-Harmless c r t sound nobody kept

    process-Harmless :
        ((cmd : Command) (role : Role) → ¬ Authorised deps env cmd role)
        → Harmless w (process_inbound_command deps env w)
    process-Harmless nobody =
        process-unadmitted
          λ cmd role e. nobody cmd role ((admit-IsSound deps env _).at w (admitted cmd role) e)

  resolve_role-ceo :
      (env : Envelope)
      → resolve_role deps env ≡ ceo
      → (env.signed && member (author_hex deps env) deps.ceo_pubkeys_hex) ≡ true
  unfolding resolve_role
  resolve_role-ceo env h = ground arith

  resolve_role-agent :
      (env : Envelope)
      → resolve_role deps env ≡ agent_sinistres
      → (not env.signed && member (author_hex deps env) deps.allowed_unsigned_roles_hex) ≡ true
  unfolding resolve_role
  resolve_role-agent env h = ground arith

  -- A valid command of a type that requires the CEO, from an envelope that is not signed by a CEO key,
  -- executes nothing and leaves the view of the store as it was, whatever the store holds and also if
  -- the run throws.
  pub process-ceo_only :
      (env : Envelope) (w : World S P) (cmd : Command) (id : String)
      → validate_command deps.schema_errors (parse_content deps env.content) ≡ valid cmd id
      → requires_ceo cmd ≡ true
      → (env.signed && member (author_hex deps env) deps.ceo_pubkeys_hex) ≡ false
      → Harmless w (process_inbound_command deps env w)
  process-ceo_only env w cmd id v needs unsigned = process-Harmless env w nobody
    where
      nobody : (cmd' : Command) (role : Role) → ¬ Authorised deps env cmd' role
      nobody cmd' role a =
          let same : cmd ≡ cmd' = cc (v, a.validated) in
          let is_ceo : role ≡ ceo =
            evaluate-requires_ceo cmd' a.ctx role (cc (same, needs)) a.policy_allowed in
          cc (resolve_role-ceo env (sym a.role_resolved ∙ is_ceo), unsigned)

  -- An unsigned envelope that names a CEO key executes nothing and leaves the view of the store as it
  -- was, whatever it asks for.
  pub process-forged :
      (env : Envelope) (w : World S P)
      → env.signed ≡ false
      → member (author_hex deps env) deps.ceo_pubkeys_hex ≡ true
      → Harmless w (process_inbound_command deps env w)
  process-forged env w unsigned listed = process-Harmless env w nobody
    where
      nobody : (cmd : Command) (role : Role) → ¬ Authorised deps env cmd role
      nobody cmd role a = let u = a.unforged in ground (arith, unsigned, listed, u)
