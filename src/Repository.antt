-- ===== src/Repository.antt =====
-- buzz-hermes-bridge/src/db/repository.ts: the seam between the pipeline and the store. `Repository`
-- is the interface; an SQL statement that the pipeline sends through `tx.query` is a `Query`, with its
-- text and its parameters.
pub mod Laws
pub mod Transaction
pub mod Memory
use assurance_toto.Prelude.{ℕ, String, Bool, Option, none, some, List, [], ◌∷◌, ℤ, pos, template}
use assurance_toto.Json.{Json, null, num, str}
use assurance_toto.Exec.{Exec, Result, ok, thrown}
use assurance_toto.Rows.{
  Outcome, SinistreRow, ApprobationRow, KillSwitchRow, AuditRow, Statut, Amount,
}

-- The statements of pipeline.ts, audit.ts and `settleClaimEffect`.
pub data Query : Type 0 where
  insert_consumed : (command_id correlation_id : String) → Query
  select_last_hash : Query
  select_audit : Query
  link_approbation :
      (correlation_id type_name claim_id : String) (montant : Option ℕ) (requested_by : String)
      → Query
  insert_pricing :
      (correlation_id type_name : String) (montant : ℕ) (decided_by reason : String) → Query
  settle_sinistre : (claim_id : String) → Query
  refuse_sinistre : (claim_id : String) → Query
  approve_approbation : (correlation_id : String) → Query
  refuse_approbation : (correlation_id : String) → Query
  activate_kill_switch : (by : String) → Query
  deactivate_kill_switch : (by : String) → Query
  insert_pnl :
      (correlation_id departement categorie : String) (montant : ℤ) (description : String) → Query

-- The SQL text, up to white space.
unfoldable pub sql : Query → String
sql (insert_consumed _ _) =
    "WITH ins AS ( INSERT INTO commandes_consommees (command_id, correlation_id) VALUES ($1, $2::uuid) ON CONFLICT DO NOTHING RETURNING 1 ) SELECT count(*)::text AS n FROM ins"
sql select_last_hash = "SELECT hash FROM audit_log ORDER BY seq DESC LIMIT 1"
sql select_audit = "SELECT seq, prev_hash, hash, payload FROM audit_log ORDER BY seq ASC"
sql (link_approbation _ _ _ _ _) =
    "INSERT INTO approbations (correlation_id, type, claim_id, montant_eur, requested_by) VALUES ($1,$2,$3,$4,$5) ON CONFLICT (correlation_id) DO NOTHING"
sql (insert_pricing _ _ _ _ _) =
    "INSERT INTO approbations (correlation_id, type, statut, montant_eur, decided_by, reason, decided_at) VALUES ($1,$2,'approuve',$3,$4,$5,NOW()) ON CONFLICT (correlation_id) DO NOTHING"
sql (settle_sinistre _) = "UPDATE sinistres SET statut = 'regle' WHERE id = $1"
sql (refuse_sinistre _) = "UPDATE sinistres SET statut = 'refuse' WHERE id = $1"
sql (approve_approbation _) =
    "UPDATE approbations SET statut = 'approuve', decided_at = NOW() WHERE correlation_id = $1 AND statut = 'en_attente'"
sql (refuse_approbation _) =
    "UPDATE approbations SET statut='refuse', decided_at=NOW() WHERE correlation_id=$1"
sql (activate_kill_switch _) =
    "INSERT INTO kill_switch (id, actif, active_par, active_le) VALUES (1, true, $1, NOW()) ON CONFLICT (id) DO UPDATE SET actif=true, active_par=$1, active_le=NOW()"
sql (deactivate_kill_switch _) =
    "UPDATE kill_switch SET actif=false, active_par=$1, active_le=NOW() WHERE id=1"
sql (insert_pnl _ _ _ _ _) =
    "INSERT INTO pnl_ledger (correlation_id, departement, categorie, montant, description) VALUES ($1,$2,$3,$4,$5) RETURNING id::text"

abbrev amount_or_null : Option ℕ → Json
amount_or_null none = null
amount_or_null (some n) = num (pos n)

-- The array of parameters.
abbrev pub params : Query → List Json
params (insert_consumed id c) = str id ∷ str c ∷ []
params select_last_hash = []
params select_audit = []
params (link_approbation c t claim montant by) =
    str c ∷ str t ∷ str claim ∷ amount_or_null montant ∷ str by ∷ []
params (insert_pricing c t montant by reason) =
    str c ∷ str t ∷ num (pos montant) ∷ str by ∷ str reason ∷ []
params (settle_sinistre claim) = str claim ∷ []
params (refuse_sinistre claim) = str claim ∷ []
params (approve_approbation c) = str c ∷ []
params (refuse_approbation c) = str c ∷ []
params (activate_kill_switch by) = str by ∷ []
params (deactivate_kill_switch by) = str by ∷ []
params (insert_pnl c d k montant text) = str c ∷ str d ∷ str k ∷ num montant ∷ str text ∷ []

-- The rows of a reply, by the columns that the caller reads.
pub data Reply : Type 0 where
  no_rows : Reply
  count_row : (n : ℕ) → Reply
  hash_rows : List String → Reply
  audit_rows : List AuditRow → Reply
  id_row : (id : ℕ) → Reply

pub record Repository (S : Type 0) : Type 0 where
  pub find_sinistre : String → Exec S (Option SinistreRow)
  pub is_command_consumed : String → Exec S Bool
  pub get_kill_switch : Exec S (Option KillSwitchRow)
  pub append_audit :
      (correlation_id source action : String) (payload : Json) (hash prev_hash : String)
      → Exec S (Unit {0})
  pub query : Query → Exec S Reply
  -- The store after a transaction that threw, from the stores before and after it.
  pub rollback : S → S → S
  pub list_approvals : Statut → ℕ → Exec S (List ApprobationRow)
  pub create_approbation :
      (correlation_id type_name : String) (claim_id : Option String) (montant_eur : Option Amount)
      (reason requested_by : Option String)
      → Exec S ApprobationRow
  pub decide_approbation :
      (correlation_id decided_by reason : String) (approve : Bool) → Exec S (Option ApprobationRow)
  pub set_kill_switch : (actif : Bool) (active_par : String) → Exec S (Unit {0})
  -- The store after an assignment to `execution` of the row that `decideApprobation` returned: the
  -- repository in memory returns the row that it stores, and Postgres a copy.
  pub note_execution : (correlation_id : String) (execution : Outcome) → S → S

abbrev pub close : {S A : Type 0} → (S → S) → Result A × S → Result A × S
close undo (ok a, s) = (ok a, s)
close undo (thrown e, s) = (thrown e, undo s)

-- `inTransaction`
unfoldable pub in_transaction : {S A : Type 0} → Repository S → Exec S A → Exec S A
in_transaction repo m s = close (repo.rollback s) (m s)
