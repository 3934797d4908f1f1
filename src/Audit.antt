-- ===== src/Audit.antt =====
-- buzz-hermes-bridge/src/audit.ts: the append-only log, chained by
-- sha256(prev_hash + canonical payload), over any repository. SHA-256 and `JSON.parse` are parameters.
pub mod Chain
pub mod MemoryLog
pub mod Growth
use Prim.Native.String
use assurance_toto.Prelude.{
  ℕ, String, Bool, Option, none, some, List, [], ◌∷◌, ◌==◌, not, if◌then◌else◌,
}
use assurance_toto.Json.{Json, null, obj, end, str, stable_stringify, payload_or_empty}
use assurance_toto.Exec.{Exec, pure, ◌>>=◌, ◌>>◌}
use assurance_toto.Rows.{AuditRow}
use assurance_toto.Repository.{
  Repository, in_transaction, Reply, hash_rows, audit_rows, select_last_hash, select_audit,
}

pub record AuditEntry : Type 0 where
  pub correlation_id : String
  pub source : String
  pub action : String
  pub payload : Json

-- `prev[0] ?? ''`
abbrev pub first_hash : Reply → String
first_hash (hash_rows (h ∷ _)) = h
first_hash _ = ""

pub data Verdict : Type 0 where
  intact : Verdict
  broken_at : (seq : ℕ) (reason : String) → Verdict

-- `parseJson`: a text that is no JSON stands for itself.
abbrev pub parsed : String → Option Json → Json
parsed text none = str text
parsed text (some v) = v

abbrev pub rows_of : Reply → List AuditRow
rows_of (audit_rows rows) = rows
rows_of _ = []

module _ (sha256 : String → String) where
  unfoldable pub compute_audit_hash : String → Json → String
  compute_audit_hash prev_hash payload =
      sha256 (String.◌++◌ prev_hash (stable_stringify (payload_or_empty payload)))

  module _ {S : Type 0} (repo : Repository S) where
    unfoldable pub read_last_hash : Exec S String
    read_last_hash = do
      reply ← in_transaction repo (repo.query select_last_hash)
      pure (first_hash reply)

    -- Returns the new hash.
    unfoldable pub append_audit : AuditEntry → Exec S String
    append_audit entry = do
      prev_hash ← read_last_hash
      let hash = compute_audit_hash prev_hash entry.payload
      repo.append_audit entry.correlation_id entry.source entry.action
          (payload_or_empty entry.payload) hash prev_hash
      pure hash

  -- `JSON.parse`, with `none` for a text that it refuses.
  module _ (parse_json : String → Option Json) where
    -- The loop of `verifyAuditChain`.
    unfoldable pub verify_from : String → List AuditRow → Verdict
    verify_from prev [] = intact
    verify_from prev (row ∷ rows) =
        let rest : Verdict = verify_from row.hash rows in
        let expected : String =
          compute_audit_hash prev (parsed row.payload (parse_json row.payload)) in
        if not (row.prev_hash == prev)
        then broken_at row.seq "prev_hash mismatch"
        else if not (row.hash == expected)
        then broken_at row.seq "hash mismatch (tampered payload?)"
        else rest

    unfoldable pub verify_audit_chain : {S : Type 0} → Repository S → Exec S Verdict
    verify_audit_chain repo = do
      reply ← in_transaction repo (repo.query select_audit)
      pure (verify_from "" (rows_of reply))
