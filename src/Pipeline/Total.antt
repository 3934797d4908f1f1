-- ===== src/Pipeline/Total.antt =====
-- `processInboundCommand` (buzz-hermes-bridge/src/pipeline.ts) on the store in memory, as a whole:
-- a command does no harm, or it was checked and is executed.
use assurance_toto.Prelude.{String, ◌≡◌, refl, ap, subst, or_else, ◌⊎◌, inl, inr}
use assurance_toto.Commands.{Command}
use assurance_toto.Policy.{Role}
use assurance_toto.Exec.{Exec, Result, ok, thrown, Thrown, catch, handle}
use assurance_toto.Exec.Returns.{bind_ok}
use assurance_toto.Repository.Memory.{MemoryState}
use assurance_toto.Repository.Memory.Views.{business, memory-ReadsKeep}
use assurance_toto.Pipeline.{process_inbound_command, run_pipeline, after_admission, recover}
use assurance_toto.Pipeline.Types.{Deps, World, Envelope, PipelineResult, command_id_of_env}
use assurance_toto.Pipeline.Checks.{Admission, early, admitted, admit}
use assurance_toto.Pipeline.Authority.{Authorised, admit-IsSound}
use assurance_toto.Pipeline.ReadOnly.{Outside, admit-Keeps}
use assurance_toto.Pipeline.InMemory.{in_memory, Checked, admit-Checked}
use assurance_toto.Pipeline.Safety.{Harmless, process-unadmitted}
use assurance_toto.Pipeline.Books.{Books, books, consume, book}
use assurance_toto.Pipeline.Execution.{perform}
use assurance_toto.Pipeline.Performed.{Ended, IsExecuted, perform-Ended}

handled-Ended :
    {P A : Type 0} {Q : A → Type 0} {b : Books} (h : Thrown → Exec (World MemoryState P) A)
    (r : Result A) (t : World MemoryState P)
    → Ended Q b (r, t)
    → Ended Q b (handle h (r, t))
handled-Ended h (ok a) t e = e
handled-Ended h (thrown x) t e = let impossible = e.returned in absurd (cc (impossible))

module _ {P : Type 0} (deps : Deps MemoryState P) (env : Envelope) (w : World MemoryState P) where
  abbrev pub correlation : String
  correlation = or_else env.correlation_id deps.fresh_id

  abbrev pub command_key : String
  command_key = command_id_of_env (in_memory deps) env

  abbrev pub run : Result PipelineResult × World MemoryState P
  run = process_inbound_command (in_memory deps) env w

  abbrev pub DidNoHarm : Type 0
  DidNoHarm = Harmless business (in_memory deps) (memory-ReadsKeep deps.now) w run

  -- The command of the envelope was checked against the store, and is executed.
  pub record Executed : Type 0 where
    pub command : Command
    pub role : Role
    pub authorised : Authorised (in_memory deps) env command role
    pub checked : Checked deps env correlation w command role
    pub ended :
        Ended
          (IsExecuted deps env correlation command role)
          (book deps.now deps.threshold_eur correlation command (consume command_key (books w.db)))
          run

  pub admitted-run :
      (cmd : Command) (role : Role)
      → (admit (in_memory deps) env correlation w).0 ≡ ok (admitted cmd role)
      → Ended
          (IsExecuted deps env correlation cmd role)
          (book deps.now deps.threshold_eur correlation cmd (consume command_key (books w.db)))
          run
  unfolding process_inbound_command catch run_pipeline
  admitted-run cmd role e =
      let t = (admit (in_memory deps) env correlation w).1 in
      let kept =
        (admit-Keeps business (in_memory deps) (memory-ReadsKeep deps.now) env correlation).at w in
      let same_books : books t.db ≡ books w.db =
        ap (λ (o : Outside MemoryState P). books o.business) kept in
      let same_consumed : t.db.consumed ≡ w.db.consumed =
        ap (λ (b : Books). b.consumed) same_books in
      let fresh = (admit-Checked deps env correlation cmd role w e).fresh in
      rw
        (bind_ok (admit (in_memory deps) env correlation)
          (after_admission (in_memory deps) env correlation) w (admitted cmd role) e)
        (handled-Ended (recover (in_memory deps) env correlation) _ _ (
          subst
            (λ (b : Books).
              Ended (IsExecuted deps env correlation cmd role)
                (book deps.now deps.threshold_eur correlation cmd (consume command_key b))
                (perform (in_memory deps) env correlation cmd role t))
            same_books (perform-Ended deps env correlation cmd role t (rw same_consumed fresh))))

  total-from :
      (r : Result Admission)
      → (admit (in_memory deps) env correlation w).0 ≡ r
      → DidNoHarm ⊎ Executed
  total-from (ok (admitted cmd role)) e = inr (record {
    command = cmd;
    role = role;
    authorised = (admit-IsSound (in_memory deps) env correlation).at w (admitted cmd role) e;
    checked = admit-Checked deps env correlation cmd role w e;
    ended = admitted-run cmd role e;
  })
  total-from (ok (early result)) e = inl (
      process-unadmitted business (in_memory deps) (memory-ReadsKeep deps.now) env w
        (λ cmd role p. cc (e, p)))
  total-from (thrown x) e = inl (
      process-unadmitted business (in_memory deps) (memory-ReadsKeep deps.now) env w
        (λ cmd role p. cc (e, p)))

  -- Every command, on every state of the store in memory and with any adapter, does no harm (nothing is
  -- executed and all of the store but the audit log stays), or is one that its author has the authority
  -- for and that the store's state allows, and is executed with its mark and its effect in the books.
  pub process-total : DidNoHarm ⊎ Executed
  process-total = total-from _ refl
