-- ===== src/Audit/MemoryLog.antt =====
-- `appendAudit` and `verifyAuditChain` (buzz-hermes-bridge/src/audit.ts) on the repository in memory.
use assurance_toto.Prelude.{
  ◌+◌, String, Option, some, List, [], ◌∷◌, ◌++◌, ◌≡◌, refl, sym, ◌∙◌, last?, length,
}
use assurance_toto.Json.{Json, stringify, payload_or_empty, payload_or_empty_idem}
use assurance_toto.Exec.{ok, ◌>>=◌}
use assurance_toto.Rows.{AuditRow}
use assurance_toto.Repository.{hash_rows, in_transaction}
use assurance_toto.Repository.Memory.{MemoryState, memory_repository, last_hash}
use assurance_toto.Repository.Memory.Statements.{answer-select_last_hash, answer-select_audit}
use assurance_toto.Audit.{
  AuditEntry, first_hash, compute_audit_hash, read_last_hash, append_audit, verify_from,
  verify_audit_chain, intact,
}
use assurance_toto.Audit.Chain.{tip, Links, verify-append, verify-cons}

first_hash-last :
    (rows : List AuditRow) → first_hash (hash_rows (last_hash (last? rows))) ≡ tip "" rows
first_hash-last [] = refl
first_hash-last (row ∷ []) = refl
first_hash-last (row ∷ next ∷ rows) = first_hash-last (next ∷ rows)

module _ (sha256 : String → String) (now : String) where
  -- The row that an entry becomes.
  abbrev pub next_row : AuditEntry → MemoryState → AuditRow
  next_row entry st = record {
    seq = length st.audit + 1;
    correlation_id = entry.correlation_id;
    source = entry.source;
    action = entry.action;
    payload = stringify (payload_or_empty entry.payload);
    prev_hash = tip "" st.audit;
    hash = compute_audit_hash sha256 (tip "" st.audit) entry.payload;
    created_at = now;
  }

  pub append_audit-memory :
      (entry : AuditEntry) (st : MemoryState)
      → append_audit sha256 (memory_repository now) entry st ≡ (
        ok (compute_audit_hash sha256 (tip "" st.audit) entry.payload),
        record st { audit = st.audit ++ next_row entry st ∷ [] },
      )
  unfolding append_audit read_last_hash in_transaction ◌>>=◌
  append_audit-memory entry st = rw (
    answer-select_last_hash now st,
    first_hash-last st.audit,
    payload_or_empty_idem entry.payload,
  )

  module _ (parse_json : String → Option Json) where
    compute-payload_or_empty :
        (prev : String) (p : Json)
        → compute_audit_hash sha256 prev (payload_or_empty p) ≡ compute_audit_hash sha256 prev p
    unfolding compute_audit_hash
    compute-payload_or_empty prev p = rw (payload_or_empty_idem p)

    next_row-Links :
        (entry : AuditEntry) (st : MemoryState)
        → parse_json (stringify (payload_or_empty entry.payload))
          ≡ some (payload_or_empty entry.payload)
        → Links sha256 parse_json (tip "" st.audit) (next_row entry st)
    next_row-Links entry st reads = record {
      follows = refl;
      hashed = rw reads (sym (compute-payload_or_empty (tip "" st.audit) entry.payload));
    }

    verify-nil : (prev : String) → verify_from sha256 parse_json prev [] ≡ intact
    unfolding verify_from
    verify-nil prev = refl

    abbrev pub IsIntact : MemoryState → Type 0
    IsIntact st = verify_from sha256 parse_json "" st.audit ≡ intact

    -- What the audit endpoint answers is the verification of the rows that the store holds.
    pub verify_audit_chain-memory :
        (st : MemoryState)
        → verify_audit_chain sha256 parse_json (memory_repository now) st
          ≡ (ok (verify_from sha256 parse_json "" st.audit), st)
    unfolding verify_audit_chain in_transaction ◌>>=◌
    verify_audit_chain-memory st = rw (answer-select_audit now st)

    -- Appending an entry keeps an intact log intact, if its payload reads back as it was printed.
    pub append_audit-IsIntact :
        (entry : AuditEntry) (st : MemoryState)
        → parse_json (stringify (payload_or_empty entry.payload))
          ≡ some (payload_or_empty entry.payload)
        → IsIntact st
        → IsIntact (append_audit sha256 (memory_repository now) entry st).1
    append_audit-IsIntact entry st reads h = rw (append_audit-memory entry st) (
        verify-append sha256 parse_json "" st.audit (next_row entry st ∷ []) h
        ∙ verify-cons sha256 parse_json (tip "" st.audit) (next_row entry st) []
            (next_row-Links entry st reads)
        ∙ verify-nil (next_row entry st).hash)
