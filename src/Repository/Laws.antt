-- ===== src/Repository/Laws.antt =====
-- What the pipeline relies on of a repository (buzz-hermes-bridge/src/db/repository.ts): reads and the
-- audit log leave the business view of the store as it was, and so does undoing what left it so.
use assurance_toto.Prelude.{String, ◌≡◌}
use assurance_toto.Json.{Json}
use assurance_toto.Exec.{Exec, Result, ok, thrown}
use assurance_toto.Exec.Keeps.{Keeps}
use assurance_toto.Repository.{Repository, close, in_transaction, select_last_hash}

pub record ReadsKeep {S V : Type 0} (view : S → V) (repo : Repository S) : Type 0 where
  pub find_sinistre : (id : String) → Keeps view (repo.find_sinistre id)
  pub is_command_consumed : (id : String) → Keeps view (repo.is_command_consumed id)
  pub get_kill_switch : Keeps view repo.get_kill_switch
  pub append_audit :
      (c s a : String) (payload : Json) (h p : String)
      → Keeps view (repo.append_audit c s a payload h p)
  pub last_hash : Keeps view (repo.query select_last_hash)
  pub rollback :
      (before after : S)
      → view after ≡ view before
      → view (repo.rollback before after) ≡ view before

module _ {S V A : Type 0} {view : S → V} {repo : Repository S} where
  closed :
      (before after : S) (r : Result A)
      → ReadsKeep view repo
      → view after ≡ view before
      → view (close (repo.rollback before) (r, after)).1 ≡ view before
  closed before after (ok a) laws h = h
  closed before after (thrown e) laws h = laws.rollback before after h

  pub Keeps-in_transaction :
      (m : Exec S A) → ReadsKeep view repo → Keeps view m → Keeps view (in_transaction repo m)
  unfolding in_transaction
  Keeps-in_transaction m laws k = record {
    at = λ s. let (r, t) = m s in closed s t r laws (k.at s);
  }

module _ {S A : Type 0} (repo : Repository S) where
  closed_ok :
      (undo : S → S) (r : Result A) (after : S) (a : A)
      → r ≡ ok a
      → close undo (r, after) ≡ (ok a, after)
  closed_ok undo (ok b) after a e = let same : b ≡ a = cc in rw same
  closed_ok undo (thrown x) after a e = absurd (cc)

  -- A transaction whose body returns is the body.
  pub in_transaction_ok :
      (m : Exec S A) (s : S) (a : A) → (m s).0 ≡ ok a → in_transaction repo m s ≡ (ok a, (m s).1)
  unfolding in_transaction
  in_transaction_ok m s a e = let (r, t) = m s in closed_ok (repo.rollback s) r t a e
