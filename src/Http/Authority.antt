-- ===== src/Http/Authority.antt =====
-- What a request to buzz-hermes-bridge/src/http/server.ts can change: the handlers for commands,
-- approval requests, decisions and the kill-switch on the store in memory, with any adapter.
use assurance_toto.Prelude.{
  String, Bool, true, false, Option, none, some, ◌≡◌, refl, ap, ◌∙◌, lookup, Bool-cases, inl, inr,
  to_lower_case,
}
use assurance_toto.Json.{stringify}
use assurance_toto.Commands.{Command, validate_command, valid}
use assurance_toto.Policy.{requires_ceo}
use assurance_toto.Exec.{Exec, Result, ok, thrown, pure, continue, ◌>>=◌}
use assurance_toto.Exec.Keeps.{Keeps, Keeps-pure, Keeps-bind, Keeps-if}
use assurance_toto.Rows.{ApprobationRow, Amount, is_en_attente}
use assurance_toto.Identity.{SignedEvent}
use assurance_toto.Repository.Memory.{MemoryState, decide_found, create_found}
use assurance_toto.Repository.Memory.Views.{business, memory-ReadsKeep}
use assurance_toto.Pipeline.{process_inbound_command}
use assurance_toto.Pipeline.Types.{Deps, World, Envelope, parse_content, on_db}
use assurance_toto.Pipeline.InMemory.{in_memory}
use assurance_toto.Pipeline.Books.{Books, books}
use assurance_toto.Pipeline.Safety.{process-ceo_only}
use assurance_toto.Http.{
  CommandBody, DecideBody, ApprobationBody, post_commands, post_approvals, run_command, envelope_of,
}

module _ {S P A B : Type 0} where
  -- What follows a run and only answers changes no state.
  answered : (f : A → B) (r : Result A) (w : World S P) → (continue (λ a. pure (f a)) (r, w)).1 ≡ w
  answered f (ok a) w = refl
  answered f (thrown e) w = refl

  bind-pure :
      (m : Exec (World S P) A) (f : A → B) (w : World S P) → ((m >>= λ a. pure (f a)) w).1 ≡ (m w).1
  unfolding ◌>>=◌
  bind-pure m f w = let (r, t) = m w in answered f r t

abbrev pub booked : {P : Type 0} → World MemoryState P → Books
booked w = books w.db

created :
    (now c t : String) (claim : Option String) (montant : Option Amount) (by : Option String)
    (o : Option ApprobationRow) (st : MemoryState)
    → books (create_found now c t claim montant by o st).1 ≡ books st
created now c t claim montant by none st = refl
created now c t claim montant by (some old) st = refl

pub decided :
    (now c by reason : String) (approve : Bool) (o : Option ApprobationRow) (st : MemoryState)
    → books (decide_found now c by reason approve o st).1 ≡ books st
decided now c by reason approve none st = refl
decided now c by reason approve (some a) st = elim (Bool-cases (is_en_attente a.statut)) [
  | inl pending ↦ rw pending refl
  | inr done ↦ rw done refl
]

module _ {P : Type 0} (deps : Deps MemoryState P) (verify_event : SignedEvent → Option Bool)
    (uuid : String) where
  -- A command that only the CEO may give, posted without a signed event, leaves all of the store but
  -- the audit log as it was, with and without the setting that requires signatures, if a command reads
  -- back as it is printed.
  pub post_commands-unsigned :
      (require_signed : Bool) (body : CommandBody) (cmd : Command) (id : String)
      (w : World MemoryState P)
      → body.event ≡ none
      → validate_command deps.schema_errors body.command ≡ valid cmd id
      → parse_content deps (stringify body.command) ≡ body.command
      → requires_ceo cmd ≡ true
      → business
          (post_commands (in_memory deps) verify_event uuid require_signed (some body) w).1.db
        ≡ business w.db
  unfolding post_commands run_command parse_content
  post_commands-unsigned true body cmd id w e v back needs = rw (v, e, needs) refl
  post_commands-unsigned false body cmd id w e v back needs =
      let env : Envelope =
        envelope_of (in_memory deps) verify_event uuid body _ body.author_pubkey false in
      rw (v, e)
        (ap (λ (t : World MemoryState P). business t.db)
            (bind-pure (process_inbound_command (in_memory deps) env) _ w)
          ∙ (process-ceo_only business (in_memory deps) (memory-ReadsKeep deps.now) env w cmd id
              (ap (validate_command deps.schema_errors) back ∙ v) needs refl).kept)

  -- A request for an approval changes no claim, no kill-switch, no consumed command and no ledger row,
  -- whoever asks and for whatever amount.
  pub post_approvals-books :
      (body : Option ApprobationBody)
      → Keeps booked (post_approvals (in_memory deps) verify_event uuid body)
  unfolding post_approvals on_db
  post_approvals-books none = Keeps-pure _
  post_approvals-books (some body) = Keeps-if _ _ _ (Keeps-pure _) (
      Keeps-bind _ _
        (record {
          at = λ w. created deps.now _ _ _ _ _ (lookup body.correlation_id w.db.approbations) w.db;
        })
        (λ row. Keeps-pure _))

  -- Whoever answers for a decision: the key of its event, or the one that the body names.
  abbrev pub decider : DecideBody → Option SignedEvent → String
  decider body none = body.decided_by
  decider body (some ev) = to_lower_case ev.pubkey
