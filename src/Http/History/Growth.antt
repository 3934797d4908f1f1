-- ===== src/Http/History/Growth.antt =====
-- The audit log over a history of messages and requests (buzz-hermes-bridge/src/http/server.ts,
-- pipeline.ts, audit.ts).
use assurance_toto.Pipeline.InMemory.{in_memory}
use assurance_toto.Audit.Growth.{Grown, Grown-refl}
use assurance_toto.Pipeline.Growth.{
  reading, Preserves-on_db, process-Preserves, Preserves-decide, GrownWorld,
}
use assurance_toto.Exec.Preserves.{Preserves, Preserves-bind, Preserves-if, Preserves-pure}
use assurance_toto.Commands.{valid, Command, Validated, invalid}
use assurance_toto.Http.History.{
  killswitch, decide, approvals, commands, at_moment, Moment, Request, serve, serve_all, message,
}
use assurance_toto.Http.{
  verified, DecideBody, post_commands, post_approvals, run_command, CommandBody, post_decide,
  post_killswitch, ApprobationBody, KillswitchBody, by_validity, execute_approved, by_event,
  decide_as, by_signature, decide_by_event, by_decider, after_decision,
}
use assurance_toto.Rows.{AuditRow, Amount, ApprobationRow}
use assurance_toto.Identity.{SignedEvent, SigVerify, rejected}
use assurance_toto.Repository.Memory.{MemoryState, create_found}
use assurance_toto.Pipeline.Types.{Deps, Envelope, World}
use assurance_toto.Prelude.{
  lookup, String, Bool, true, Option, none, some, List, [], ◌∷◌, ◌≡◌, refl,
}

module _ {P : Type 0} (deps : Deps MemoryState P) (base : List AuditRow) where
  create_found-audit :
      (c t : String) (claim : Option String) (m : Option Amount) (by : Option String)
      (o : Option ApprobationRow) (st : MemoryState)
      → (create_found deps.now c t claim m by o st).1.audit ≡ st.audit
  create_found-audit c t claim m by (some old) st = refl
  create_found-audit c t claim m by none st = refl

  module _ (verify_event : SignedEvent → Option Bool) (uuid : String) where
    run_command-Preserves :
        (env : Envelope)
        → Preserves (GrownWorld deps base) (run_command (in_memory deps) verify_event uuid env)
    unfolding run_command
    run_command-Preserves env =
        Preserves-bind _ _ (process-Preserves deps base env) (λ r. Preserves-pure _)

    by_event-Preserves :
        (body : CommandBody) (ev : SignedEvent) (v : SigVerify)
        → Preserves (GrownWorld deps base) (by_event (in_memory deps) verify_event uuid body ev v)
    by_event-Preserves body ev (rejected reason) = Preserves-pure _
    by_event-Preserves body ev (verified author) = run_command-Preserves _

    by_signature-Preserves :
        (s : Bool) (body : CommandBody) (cmd : Command) (ev : Option SignedEvent)
        → Preserves
            (GrownWorld deps base)
            (by_signature (in_memory deps) verify_event uuid s body cmd ev)
    by_signature-Preserves s body cmd (some ev) = by_event-Preserves body ev _
    by_signature-Preserves s body cmd none =
        Preserves-if _ _ _ (Preserves-pure _) (run_command-Preserves _)

    by_validity-Preserves :
        (s : Bool) (body : CommandBody) (v : Validated)
        → Preserves (GrownWorld deps base) (by_validity (in_memory deps) verify_event uuid s body v)
    by_validity-Preserves s body (invalid errors) = Preserves-pure _
    by_validity-Preserves s body (valid cmd id) = by_signature-Preserves s body cmd body.event

    post_commands-Preserves :
        (s : Bool) (body : Option CommandBody)
        → Preserves (GrownWorld deps base) (post_commands (in_memory deps) verify_event uuid s body)
    unfolding post_commands
    post_commands-Preserves s none = Preserves-pure _
    post_commands-Preserves s (some body) = by_validity-Preserves s body _

    post_approvals-Preserves :
        (body : Option ApprobationBody)
        → Preserves (GrownWorld deps base) (post_approvals (in_memory deps) verify_event uuid body)
    unfolding post_approvals
    post_approvals-Preserves none = Preserves-pure _
    post_approvals-Preserves (some body) = Preserves-if _ _ _ (Preserves-pure _) (
        Preserves-bind _ _
          (Preserves-on_db deps base _ (
            reading deps base _ (record {
              at = λ st.
                  create_found-audit body.correlation_id body.type_name _ _ _
                    (lookup body.correlation_id st.approbations) st;
            })))
          (λ row. Preserves-pure _))

    execute_approved-Preserves :
        (c : String) (body : DecideBody) (by : String) (row : ApprobationRow) (m : Option Amount)
        → Preserves
            (GrownWorld deps base)
            (execute_approved (in_memory deps) verify_event uuid c body by row m)
    execute_approved-Preserves c body by row none = Preserves-pure _
    execute_approved-Preserves c body by row (some m) =
        Preserves-if _ _ _
          (Preserves-bind _ _ (process-Preserves deps base _) λ r.
            Preserves-bind _ _ (Preserves-on_db deps base _ (record { at = λ st g. g }))
              (λ u. Preserves-pure _))
          (Preserves-pure _)

    after_decision-Preserves :
        (html : Bool) (c : String) (body : DecideBody) (by : String) (o : Option ApprobationRow)
        → Preserves
            (GrownWorld deps base)
            (after_decision (in_memory deps) verify_event uuid html c body by o)
    after_decision-Preserves html c body by none =
        Preserves-if _ _ _ (Preserves-pure _) (Preserves-pure _)
    after_decision-Preserves html c body by (some row) =
        Preserves-bind _ _ (execute_approved-Preserves c body by row row.montant_eur)
          (λ r. Preserves-pure _)

    decide_as-Preserves :
        (html : Bool) (c : String) (body : DecideBody) (key : String)
        → Preserves
            (GrownWorld deps base)
            (decide_as (in_memory deps) verify_event uuid html c body key)
    decide_as-Preserves html c body key = Preserves-if _ _ _ (Preserves-pure _) (
        Preserves-bind _ _ (Preserves-decide deps base c _ body.reason body.approve)
          (after_decision-Preserves html c body _))

    by_decider-Preserves :
        (html : Bool) (c : String) (body : DecideBody) (ev : SignedEvent) (b : Option Bool)
        → Preserves
            (GrownWorld deps base)
            (by_decider (in_memory deps) verify_event uuid html c body ev b)
    by_decider-Preserves html c body ev (some true) = decide_as-Preserves html c body _
    by_decider-Preserves html c body ev _ = Preserves-pure _

    decide_by_event-Preserves :
        (html : Bool) (c : String) (body : DecideBody) (ev : Option SignedEvent)
        → Preserves
            (GrownWorld deps base)
            (decide_by_event (in_memory deps) verify_event uuid html c body ev)
    decide_by_event-Preserves html c body none = decide_as-Preserves html c body _
    decide_by_event-Preserves html c body (some ev) = by_decider-Preserves html c body ev _

    post_decide-Preserves :
        (html : Bool) (c : String) (body : Option DecideBody)
        → Preserves
            (GrownWorld deps base)
            (post_decide (in_memory deps) verify_event uuid html c body)
    unfolding post_decide
    post_decide-Preserves html c none = Preserves-pure _
    post_decide-Preserves html c (some body) = decide_by_event-Preserves html c body body.event

    post_killswitch-Preserves :
        (html : Bool) (body : Option KillswitchBody)
        → Preserves
            (GrownWorld deps base)
            (post_killswitch (in_memory deps) verify_event uuid html body)
    unfolding post_killswitch
    post_killswitch-Preserves html none = Preserves-pure _
    post_killswitch-Preserves html (some body) = Preserves-if _ _ _ (Preserves-pure _) (
        Preserves-bind _ _
          (Preserves-on_db deps base _ (reading deps base _ (record { at = λ st. refl })))
          λ u. Preserves-bind _ _ (process-Preserves deps base _) (λ r. Preserves-pure _))

module _ {P : Type 0} (deps : Deps MemoryState P) (verify_event : SignedEvent → Option Bool)
    (base : List AuditRow) where
  serve-Grown :
      (m : Moment) (r : Request) (w : World MemoryState P)
      → GrownWorld deps base w
      → GrownWorld deps base (serve deps verify_event m r w)
  serve-Grown m (message env) w = (process-Preserves (at_moment deps verify_event m) base env).at w
  serve-Grown m (commands s body) w =
      (post_commands-Preserves (at_moment deps verify_event m) base verify_event m.uuid s body).at w
  serve-Grown m (approvals body) w =
      (post_approvals-Preserves (at_moment deps verify_event m) base verify_event m.uuid body).at w
  serve-Grown m (decide html c body) w =
      (post_decide-Preserves (at_moment deps verify_event m) base verify_event m.uuid html c
          body).at
        w
  serve-Grown m (killswitch html body) w =
      (post_killswitch-Preserves (at_moment deps verify_event m) base verify_event m.uuid html
          body).at
        w

  served-Grown :
      (history : List (Moment × Request)) (w : World MemoryState P)
      → GrownWorld deps base w
      → GrownWorld deps base (serve_all deps verify_event history w)
  served-Grown [] w g = g
  served-Grown ((m, r) ∷ rest) w g =
      served-Grown rest (serve deps verify_event m r w) (serve-Grown m r w g)

-- The audit log is append-only and stays chained: after any history of messages and requests it is the
-- log before it and then rows each of which names the hash of the row before it, holds the print of a
-- payload, and carries the hash of that payload after the row before it.
pub serve_all-Grown :
    {P : Type 0} (deps : Deps MemoryState P) (verify_event : SignedEvent → Option Bool)
    (history : List (Moment × Request)) (w : World MemoryState P)
    → Grown deps.sha256 w.db.audit (serve_all deps verify_event history w).db.audit
serve_all-Grown deps verify_event history w =
    served-Grown deps verify_event w.db.audit history w (Grown-refl deps.sha256 w.db.audit)
