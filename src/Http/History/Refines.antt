-- ===== src/Http/History/Refines.antt =====
-- Histories of requests (buzz-hermes-bridge/src/http/server.ts, pipeline.ts) as runs of the abstract
-- machine of Spec on the books.
use assurance_toto.Prelude.{
  ℕ, String, Bool, true, false, Option, none, some, List, [], ◌∷◌, ◌≡◌, sym, subst, ap, lookup, inl,
  inr, if◌then◌else◌,
}
use assurance_toto.Exec.{Exec, Result, ok, thrown, pure, continue, ◌>>=◌}
use assurance_toto.Exec.Keeps.{Keeps}
use assurance_toto.Rows.{ApprobationRow, Amount}
use assurance_toto.Identity.{SignedEvent, SigVerify, verified, rejected}
use assurance_toto.Commands.{Command, Validated, valid, invalid}
use assurance_toto.Repository.Memory.{MemoryState}
use assurance_toto.Pipeline.{process_inbound_command}
use assurance_toto.Pipeline.Types.{Deps, World, Envelope, on_db}
use assurance_toto.Pipeline.InMemory.{in_memory}
use assurance_toto.Pipeline.Books.{books}
use assurance_toto.Pipeline.Total.{process-total}
use assurance_toto.Spec.{execute, switch, Reach, here, next, Reach-trans}
use assurance_toto.Spec.Ledger.{IsSound, Reach-IsSound}
use assurance_toto.Http.{
  CommandBody, DecideBody, KillswitchBody, post_commands, post_decide, post_killswitch, run_command,
  by_event, by_signature, by_validity, decide_as, after_decision, execute_approved, by_decider,
  decide_by_event,
}
use assurance_toto.Http.Authority.{booked, post_approvals-books, decided}
use assurance_toto.Http.History.{
  Moment, Request, message, commands, approvals, decide, killswitch, at_moment, serve, serve_all,
}

-- An action that is a run of the machine.
pub record Refines {P A : Type 0} (threshold : ℕ) (m : Exec (World MemoryState P) A) : Type 0 where
  pub at : (w : World MemoryState P) → Reach threshold (books w.db) (books (m w).1.db)

module _ {P A : Type 0} {t : ℕ} where
  Refines-Keeps : (m : Exec (World MemoryState P) A) → Keeps booked m → Refines t m
  Refines-Keeps m k = record { at = λ w. subst (λ b. Reach t (books w.db) b) (sym (k.at w)) here }

  Refines-pure : (a : A) → Refines t (pure {S = World MemoryState P} a)
  Refines-pure a = record { at = λ w. here }

  Refines-if :
      (b : Bool) (m k : Exec (World MemoryState P) A)
      → Refines t m
      → Refines t k
      → Refines t (if b then m else k)
  Refines-if true m k rm rk = rm
  Refines-if false m k rm rk = rk

module _ {P A B : Type 0} {t : ℕ} where
  continued :
      (f : A → Exec (World MemoryState P) B) (r : Result A) (w : World MemoryState P)
      → ((a : A) → Refines t (f a))
      → Reach t (books w.db) (books (continue f (r, w)).1.db)
  continued f (ok a) w k = (k a).at w
  continued f (thrown e) w k = here

  Refines-bind :
      (m : Exec (World MemoryState P) A) (f : A → Exec (World MemoryState P) B)
      → Refines t m
      → ((a : A) → Refines t (f a))
      → Refines t (m >>= f)
  unfolding ◌>>=◌
  Refines-bind m f rm rf = record {
    at = λ w. let first = rm.at w in let (r, u) = m w in Reach-trans first (continued f r u rf);
  }

module _ {P : Type 0} (deps : Deps MemoryState P) where
  process-Refines :
      (env : Envelope) → Refines deps.threshold_eur (process_inbound_command (in_memory deps) env)
  process-Refines env = record {
    at = λ w. elim (process-total deps env w) [
      | inl harmless ↦
          let kept : books (process_inbound_command (in_memory deps) env w).1.db ≡ books w.db =
            ap (λ (st : MemoryState). books st) harmless.kept in
          subst (λ b. Reach deps.threshold_eur (books w.db) b) (sym kept) here
      | inr done ↦
          subst (λ b. Reach deps.threshold_eur (books w.db) b) (sym done.ended.left)
            (next here (
              execute deps.now _ _ done.command done.role done.checked.fresh
                done.checked.policy_allowed))
    ];
  }

  module _ (verify_event : SignedEvent → Option Bool) (uuid : String) where
    run_command-Refines :
        (env : Envelope)
        → Refines deps.threshold_eur (run_command (in_memory deps) verify_event uuid env)
    unfolding run_command
    run_command-Refines env = Refines-bind _ _ (process-Refines env) (λ r. Refines-pure _)

    by_event-Refines :
        (body : CommandBody) (ev : SignedEvent) (v : SigVerify)
        → Refines deps.threshold_eur (by_event (in_memory deps) verify_event uuid body ev v)
    by_event-Refines body ev (rejected reason) = Refines-pure _
    by_event-Refines body ev (verified author) = run_command-Refines _

    by_signature-Refines :
        (require_signed : Bool) (body : CommandBody) (cmd : Command) (ev : Option SignedEvent)
        → Refines deps.threshold_eur
            (by_signature (in_memory deps) verify_event uuid require_signed body cmd ev)
    by_signature-Refines s body cmd (some ev) = by_event-Refines body ev _
    by_signature-Refines s body cmd none = Refines-if _ _ _ (Refines-pure _) (run_command-Refines _)

    by_validity-Refines :
        (require_signed : Bool) (body : CommandBody) (v : Validated)
        → Refines deps.threshold_eur
            (by_validity (in_memory deps) verify_event uuid require_signed body v)
    by_validity-Refines s body (invalid errors) = Refines-pure _
    by_validity-Refines s body (valid cmd id) = by_signature-Refines s body cmd body.event

    post_commands-Refines :
        (require_signed : Bool) (body : Option CommandBody)
        → Refines deps.threshold_eur
            (post_commands (in_memory deps) verify_event uuid require_signed body)
    unfolding post_commands
    post_commands-Refines s none = Refines-pure _
    post_commands-Refines s (some body) = by_validity-Refines s body _

    execute_approved-Refines :
        (c : String) (body : DecideBody) (by : String) (row : ApprobationRow) (m : Option Amount)
        → Refines deps.threshold_eur
            (execute_approved (in_memory deps) verify_event uuid c body by row m)
    unfolding on_db
    execute_approved-Refines c body by row none = Refines-pure _
    execute_approved-Refines c body by row (some m) =
        Refines-if _ _ _
          (Refines-bind _ _ (process-Refines _)
            λ r. Refines-bind _ _ (record { at = λ w. here }) (λ u. Refines-pure _))
          (Refines-pure _)

    after_decision-Refines :
        (html : Bool) (c : String) (body : DecideBody) (by : String) (o : Option ApprobationRow)
        → Refines deps.threshold_eur
            (after_decision (in_memory deps) verify_event uuid html c body by o)
    after_decision-Refines html c body by none = Refines-if _ _ _ (Refines-pure _) (Refines-pure _)
    after_decision-Refines html c body by (some row) =
        Refines-bind _ _ (execute_approved-Refines c body by row row.montant_eur)
          (λ r. Refines-pure _)

    decide_as-Refines :
        (html : Bool) (c : String) (body : DecideBody) (key : String)
        → Refines deps.threshold_eur (decide_as (in_memory deps) verify_event uuid html c body key)
    unfolding on_db
    decide_as-Refines html c body key = Refines-if _ _ _ (Refines-pure _) (
        Refines-bind _ _
          (Refines-Keeps _ (record {
            at = λ w.
                decided deps.now c _ body.reason body.approve (lookup c w.db.approbations) w.db;
          }))
          (after_decision-Refines html c body _))

    by_decider-Refines :
        (html : Bool) (c : String) (body : DecideBody) (ev : SignedEvent) (b : Option Bool)
        → Refines deps.threshold_eur
            (by_decider (in_memory deps) verify_event uuid html c body ev b)
    by_decider-Refines html c body ev (some true) = decide_as-Refines html c body _
    by_decider-Refines html c body ev _ = Refines-pure _

    decide_by_event-Refines :
        (html : Bool) (c : String) (body : DecideBody) (ev : Option SignedEvent)
        → Refines deps.threshold_eur
            (decide_by_event (in_memory deps) verify_event uuid html c body ev)
    decide_by_event-Refines html c body none = decide_as-Refines html c body _
    decide_by_event-Refines html c body (some ev) = by_decider-Refines html c body ev _

    post_decide-Refines :
        (html : Bool) (c : String) (body : Option DecideBody)
        → Refines deps.threshold_eur (post_decide (in_memory deps) verify_event uuid html c body)
    unfolding post_decide
    post_decide-Refines html c none = Refines-pure _
    post_decide-Refines html c (some body) = decide_by_event-Refines html c body body.event

    post_killswitch-Refines :
        (html : Bool) (body : Option KillswitchBody)
        → Refines deps.threshold_eur (post_killswitch (in_memory deps) verify_event uuid html body)
    unfolding post_killswitch on_db
    post_killswitch-Refines html none = Refines-pure _
    post_killswitch-Refines html (some body) = Refines-if _ _ _ (Refines-pure _) (
        Refines-bind _ _ (record { at = λ w. next here (switch _) })
          λ u. Refines-bind _ _ (process-Refines _) (λ r. Refines-pure _))

module _ {P : Type 0} (deps : Deps MemoryState P) (verify_event : SignedEvent → Option Bool) where
  serve-Reach :
      (m : Moment) (r : Request) (w : World MemoryState P)
      → Reach deps.threshold_eur (books w.db) (books (serve deps verify_event m r w).db)
  serve-Reach m (message env) w = (process-Refines (at_moment deps verify_event m) env).at w
  serve-Reach m (commands s body) w =
      (post_commands-Refines (at_moment deps verify_event m) verify_event m.uuid s body).at w
  serve-Reach m (approvals body) w =
      (Refines-Keeps _
          (post_approvals-books (at_moment deps verify_event m) verify_event m.uuid body)).at
        w
  serve-Reach m (decide html c body) w =
      (post_decide-Refines (at_moment deps verify_event m) verify_event m.uuid html c body).at w
  serve-Reach m (killswitch html body) w =
      (post_killswitch-Refines (at_moment deps verify_event m) verify_event m.uuid html body).at w

  -- Refinement: whatever requests arrive, in whatever order, with whatever clock, ids and adapter, the
  -- books go through steps of the abstract machine only: executions of commands that were not consumed
  -- and that the policy allows to some role on the books at that point, and settings of the kill-switch.
  pub serve_all-Reach :
      (history : List (Moment × Request)) (w : World MemoryState P)
      → Reach deps.threshold_eur (books w.db) (books (serve_all deps verify_event history w).db)
  serve_all-Reach [] w = here
  serve_all-Reach ((m, r) ∷ rest) w =
      Reach-trans (serve-Reach m r w) (serve_all-Reach rest (serve deps verify_event m r w))

  -- After any history of requests no command is consumed twice, and the ledger has at most one row for
  -- each consumed command, each an expense of at most the threshold, if this held before it.
  pub serve_all-IsSound :
      (history : List (Moment × Request)) (w : World MemoryState P)
      → IsSound deps.threshold_eur (books w.db)
      → IsSound deps.threshold_eur (books (serve_all deps verify_event history w).db)
  serve_all-IsSound history w sound = Reach-IsSound (serve_all-Reach history w) sound
