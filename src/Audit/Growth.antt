-- ===== src/Audit/Growth.antt =====
-- How the audit log of the store in memory grows
-- (buzz-hermes-bridge/src/audit.ts, db/repository.ts).
use assurance_toto.Prelude.{
  Option, some, none, lookup, member, includes, Bool-cases, inl, inr, String, List, [], ◌∷◌, ◌++◌,
  ◌≡◌, refl, sym, ap, ◌∙◌, append_assoc, append-nil,
}
use assurance_toto.Json.{Json, stringify, payload_or_empty}
use assurance_toto.Exec.Preserves.{Preserves}
use assurance_toto.Rows.{AuditRow}
use assurance_toto.Repository.{
  Query, sql, params, insert_consumed, link_approbation, insert_pricing,
}
use assurance_toto.Repository.Memory.{MemoryState, memory_repository, memory_query}
use assurance_toto.Audit.{AuditEntry, compute_audit_hash, append_audit}
use assurance_toto.Audit.Chain.{tip}
use assurance_toto.Audit.MemoryLog.{next_row, append_audit-memory}

tip-append :
    (prev : String) (rows more : List AuditRow) → tip prev (rows ++ more) ≡ tip (tip prev rows) more
tip-append prev [] more = refl
tip-append prev (row ∷ rows) more = tip-append row.hash rows more

abbrev pub audit_of : MemoryState → List AuditRow
audit_of st = st.audit

module _ (sha256 : String → String) where
  -- A row that holds the print of some payload, and the hash of that payload after `prev`.
  abbrev pub IsHashed : String → AuditRow → Type 0
  IsHashed prev row =
      (p : Json) × (row.payload ≡ stringify (payload_or_empty p))
      × (row.hash ≡ compute_audit_hash sha256 prev p)

  abbrev pub Chained : String → List AuditRow → Type 0
  Chained prev [] = Unit
  Chained prev (row ∷ rows) = (row.prev_hash ≡ prev) × IsHashed prev row × Chained row.hash rows

  -- The log is `base` and then rows that continue its chain.
  abbrev pub Grown : List AuditRow → List AuditRow → Type 0
  Grown base log = (more : List AuditRow) × (log ≡ base ++ more) × Chained (tip "" base) more

  pub Grown-refl : (base : List AuditRow) → Grown base base
  Grown-refl base = ([], sym (append-nil base), tt)

  Chained-snoc :
      (prev : String) (rows : List AuditRow) (row : AuditRow)
      → Chained prev rows
      → row.prev_hash ≡ tip prev rows
      → IsHashed (tip prev rows) row
      → Chained prev (rows ++ row ∷ [])
  Chained-snoc prev [] row c f h = (f, h, tt)
  Chained-snoc prev (first ∷ rows) row (l, m, c) f h =
      (l, m, Chained-snoc first.hash rows row c f h)

  Grown-next :
      (now : String) (base : List AuditRow) (entry : AuditEntry) (st : MemoryState)
      → Grown base st.audit
      → Grown base (st.audit ++ next_row sha256 now entry st ∷ [])
  Grown-next now base entry st (more, e, c) =
      let tips : tip "" st.audit ≡ tip (tip "" base) more =
        ap (tip "") e ∙ tip-append "" base more in
      (
        more ++ next_row sha256 now entry st ∷ [],
        ap (λ xs. xs ++ next_row sha256 now entry st ∷ []) e ∙ append_assoc base more _,
        Chained-snoc _ more (next_row sha256 now entry st) c tips
            (entry.payload, refl, ap (λ t. compute_audit_hash sha256 t entry.payload) tips),
      )

  pub append_audit-Grown :
      (now : String) (base : List AuditRow) (entry : AuditEntry)
      → Preserves
          (λ st. Grown base (audit_of st))
          (append_audit sha256 (memory_repository now) entry)
  append_audit-Grown now base entry = record {
    at = λ st g. rw (append_audit-memory sha256 now entry st) (Grown-next now base entry st g);
  }

-- A statement leaves the log: audit rows are not written by `query`.
link-audit :
    {A : Type 0} (o : Option A) (st after : MemoryState)
    → after.audit ≡ st.audit
    → (let s : MemoryState = elim o [ some old ↦ st | none ↦ after ] in s.audit) ≡ st.audit
link-audit (some old) st after e = refl
link-audit none st after e = e

pub query-audit :
    (now : String) (q : Query) (st : MemoryState)
    → (memory_query now (sql q) (params q) st).1.audit ≡ st.audit
unfolding memory_query sql includes
query-audit now (insert_consumed id c) st = elim (Bool-cases (member id st.consumed)) [
  | inl seen ↦ rw seen
  | inr fresh ↦ rw fresh
]
query-audit now (link_approbation c t claim montant by) st =
    link-audit (lookup c st.approbations) st _ refl
query-audit now (insert_pricing c t montant by reason) st =
    link-audit (lookup c st.approbations) st _ refl
query-audit now _ st = refl
