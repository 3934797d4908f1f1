-- ===== src/Repository/Memory/Statements.antt =====
-- Which branch of `memoryQuery` (buzz-hermes-bridge/src/db/repository.ts) each statement of the
-- pipeline reaches, found by running the tests on its text.
use assurance_toto.Prelude.{
  ℕ, ◌+◌, String, true, false, Option, none, some, [], ◌∷◌, ◌++◌, ℤ, length, last?, member, lookup,
  insert, ◌≡◌, refl, if◌then◌else◌, includes,
}
use assurance_toto.Rows.{SinistreRow}
use assurance_toto.Repository.{
  Query, sql, params, Reply, no_rows, count_row, hash_rows, audit_rows, id_row, insert_consumed,
  select_last_hash, select_audit, link_approbation, settle_sinistre, refuse_sinistre,
  approve_approbation, refuse_approbation, activate_kill_switch, deactivate_kill_switch, insert_pnl,
}
use assurance_toto.Repository.Memory.{
  MemoryState, memory_query, modify, last_hash, set_switch, approve_if_pending, pending_row,
  insert_pnl_row,
}

abbrev pub answer : String → Query → MemoryState → Reply × MemoryState
answer now q st = memory_query now (sql q) (params q) st

abbrev pub to_regle : SinistreRow → SinistreRow
to_regle s = record s { statut = "regle" }

module _ (now : String) (st : MemoryState) where
  pub answer-insert_consumed :
      (id c : String)
      → answer now (insert_consumed id c) st ≡ (
          if member id st.consumed
          then (count_row 0, st)
          else (count_row 1, record st { consumed = st.consumed ++ id ∷ [] }))
  unfolding memory_query sql includes
  answer-insert_consumed id c = refl

  pub answer-select_last_hash :
      answer now select_last_hash st ≡ (hash_rows (last_hash (last? st.audit)), st)
  unfolding memory_query sql includes
  answer-select_last_hash = refl

  pub answer-select_audit : answer now select_audit st ≡ (audit_rows st.audit, st)
  unfolding memory_query sql includes
  answer-select_audit = refl

  pub answer-settle :
      (c : String)
      → answer now (settle_sinistre c) st
        ≡ (no_rows, record st { sinistres = modify c to_regle st.sinistres })
  unfolding memory_query sql includes
  answer-settle c = refl

  pub answer-refuse :
      (c : String)
      → answer now (refuse_sinistre c) st
        ≡ (no_rows, record st { sinistres = modify c to_regle st.sinistres })
  unfolding memory_query sql includes
  answer-refuse c = refl

  pub answer-approve_approbation :
      (c : String)
      → answer now (approve_approbation c) st
        ≡ (no_rows, record st { approbations = modify c (approve_if_pending now) st.approbations })
  unfolding memory_query sql includes
  answer-approve_approbation c = refl

  pub answer-refuse_approbation :
      (c : String)
      → answer now (refuse_approbation c) st
        ≡ (no_rows, record st { approbations = modify c (approve_if_pending now) st.approbations })
  unfolding memory_query sql includes
  answer-refuse_approbation c = refl

  pub answer-activate :
      (by : String) → answer now (activate_kill_switch by) st ≡ (no_rows, set_switch true by now st)
  unfolding memory_query sql includes
  answer-activate by = refl

  pub answer-deactivate :
      (by : String)
      → answer now (deactivate_kill_switch by) st ≡ (no_rows, set_switch false by now st)
  unfolding memory_query sql includes
  answer-deactivate by = refl

  pub answer-insert_pnl :
      (c d k : String) (montant : ℤ) (text : String)
      → answer now (insert_pnl c d k montant text) st ≡ (
        id_row (length st.pnl + 1),
        insert_pnl_row now (params (insert_pnl c d k montant text)) st,
      )
  unfolding memory_query sql includes
  answer-insert_pnl c d k montant text = refl

  pub answer-link :
      (c t claim : String) (montant : Option ℕ) (by : String)
      → answer now (link_approbation c t claim montant by) st ≡ (
        no_rows,
        elim (lookup c st.approbations) [
          | some old ↦ st
          | none ↦ record st {
            approbations =
                insert c
                  (pending_row now c (params (link_approbation c t claim montant by)))
                  st.approbations;
          }
        ],
      )
  unfolding memory_query sql includes
  answer-link c t claim montant by = refl
