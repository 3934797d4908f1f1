-- ===== src/Repository/Memory.antt =====
-- `makeMemoryRepository` and `memoryQuery` of buzz-hermes-bridge/src/db/repository.ts: the store in
-- memory that the tests and the demo run on. A statement is told apart by pieces of its text.
pub mod Statements
pub mod Views
use assurance_toto.Prelude.{
  ℕ, suc, ◌+◌, ◌*◌, ◌-◌, String, Bool, true, false, not, ◌&&◌, ◌||◌, Option, none, some, List, [],
  ◌∷◌, ◌++◌, ℤ, pos, pos_part, neg_part, ltb_ℤ, nat_eq, Char, code, is_digit, every_char, length,
  take, last?, member, includes, lookup, insert, if◌then◌else◌, ◌==◌, map, or_else, show_hundredths,
  select,
}
use assurance_toto.Json.{
  Json, null, bool, num, str, arr, obj, end, print_leaf, stringify, payload_or_empty,
}
use assurance_toto.Exec.{Exec, ok, pure}
use assurance_toto.Rows.{
  SinistreRow, ApprobationRow, KillSwitchRow, AuditRow, PnlRow, Statut, en_attente, approuve,
  refuse, expire, is_en_attente, Amount, eur, not_a_number, number_of_text,
}
use assurance_toto.Repository.{
  Repository, Query, sql, params, Reply, no_rows, count_row, hash_rows, audit_rows, id_row,
}

pub record MemoryState : Type 0 where
  pub sinistres : List (String × SinistreRow)
  pub kill_switch : Option KillSwitchRow
  pub consumed : List String
  pub audit : List AuditRow
  pub pnl : List PnlRow
  pub pnl_created_at : List (ℕ × String)
  pub pnl_latest : Option String
  pub approbations : List (String × ApprobationRow)

-- The value under a key of a `Map` is changed in place.
unfoldable pub modify {ℓ} : {V : Type ℓ} → String → (V → V) → List (String × V) → List (String × V)
modify k f [] = []
modify k f ((j, v) ∷ m) = if j == k then (j, f v) ∷ m else (j, v) ∷ modify k f m

-- `String(params[i] ?? '')`
abbrev text_param : List Json → ℕ → String
text_param [] i = ""
text_param (str s ∷ ps) ℕ.zero = s
text_param (null ∷ ps) ℕ.zero = ""
text_param (v ∷ ps) ℕ.zero = print_leaf v
text_param (v ∷ ps) (suc i) = text_param ps i

-- `params[i] === null ? null : String(params[i])`
abbrev text_or_null : List Json → ℕ → Option String
text_or_null [] i = none
text_or_null (null ∷ ps) ℕ.zero = none
text_or_null (str s ∷ ps) ℕ.zero = some s
text_or_null (v ∷ ps) ℕ.zero = some (print_leaf v)
text_or_null (v ∷ ps) (suc i) = text_or_null ps i

-- `Number(params[i] ?? 0)`, for a number
abbrev number_param : List Json → ℕ → ℤ
number_param [] i = pos 0
number_param (num n ∷ ps) ℕ.zero = n
number_param (v ∷ ps) ℕ.zero = pos 0
number_param (v ∷ ps) (suc i) = number_param ps i

-- `params[i] === null || params[i] === undefined ? null : Number(params[i])`
abbrev amount_param : List Json → ℕ → Option Amount
amount_param [] i = none
amount_param (null ∷ ps) ℕ.zero = none
amount_param (num n ∷ ps) ℕ.zero = some (eur (pos_part n))
amount_param (str s ∷ ps) ℕ.zero = some (number_of_text s)
amount_param (v ∷ ps) ℕ.zero = some not_a_number
amount_param (v ∷ ps) (suc i) = amount_param ps i

abbrev pub last_hash : Option AuditRow → List String
last_hash none = []
last_hash (some row) = row.hash ∷ []

abbrev pub set_switch : Bool → String → String → MemoryState → MemoryState
set_switch actif by now st = record st {
  kill_switch = some (record { id = 1; actif = actif; active_par = some by; active_le = some now });
}

abbrev pub approve_if_pending : String → ApprobationRow → ApprobationRow
approve_if_pending now a =
    if is_en_attente a.statut then record a { statut = approuve; decided_at = some now } else a

-- A `new Date().toISOString()` gives `now`.
module _ (now : String) where
  abbrev pub pending_row : String → List Json → ApprobationRow
  pending_row correlation_id ps = record {
    id = correlation_id;
    correlation_id = correlation_id;
    type_name = text_param ps 1;
    claim_id = text_or_null ps 2;
    montant_eur = amount_param ps 3;
    statut = en_attente;
    requested_by = text_or_null ps 4;
    decided_by = none;
    reason = none;
    decided_at = none;
    created_at = now;
    execution = none;
  }

  abbrev pub insert_pnl_row : List Json → MemoryState → MemoryState
  insert_pnl_row ps st =
      let id : ℕ = length st.pnl + 1 in
      record st {
        pnl =
            st.pnl
            ++ record {
              id = id;
              correlation_id = text_param ps 0;
              departement = text_param ps 1;
              categorie = text_param ps 2;
              montant = number_param ps 3;
              description = text_param ps 4;
            }
              ∷ [];
        pnl_created_at = st.pnl_created_at ++ (id, now) ∷ [];
        pnl_latest = some now;
      }

  -- `memoryQuery`: the first piece that the text includes decides.
  unfoldable pub memory_query : String → List Json → MemoryState → Reply × MemoryState
  unfolding number_of_text
  memory_query text ps st =
      if includes text "INSERT INTO commandes_consommees"
      then if member (text_param ps 0) st.consumed
        then (count_row 0, st)
        else (count_row 1, record st { consumed = st.consumed ++ text_param ps 0 ∷ [] })
      else if includes text "SELECT hash FROM audit_log"
      then (hash_rows (last_hash (last? st.audit)), st)
      else if includes text "FROM audit_log ORDER BY seq ASC"
      then (audit_rows st.audit, st)
      else if includes text "INSERT INTO kill_switch" && includes text "ON CONFLICT"
      then (
        no_rows,
        set_switch
            ((includes text "actif=true" || includes text "(1, true" || includes text "(1, $1")
              && not (includes text "actif=false"))
            (text_param ps 0) now st,
      )
      else if includes text "UPDATE kill_switch"
      then (no_rows, set_switch (not (includes text "false")) (text_param ps 0) now st)
      else if includes text "INSERT INTO pnl_ledger"
      then (id_row (length st.pnl + 1), insert_pnl_row ps st)
      else if includes text "INSERT INTO approbations"
      then (
        no_rows,
        elim (lookup (text_param ps 0) st.approbations) [
          | some old ↦ st
          | none ↦ record st {
            approbations =
                insert (text_param ps 0) (pending_row (text_param ps 0) ps) st.approbations;
          }
        ],
      )
      else if includes text "UPDATE sinistres"
      then (
        no_rows,
        record st {
          sinistres =
              modify (text_param ps 0) (λ (s : SinistreRow). record s { statut = "regle" })
                st.sinistres;
        },
      )
      else if includes text "UPDATE approbations"
      then (
        no_rows,
        record st {
          approbations = modify (text_param ps 0) (approve_if_pending now) st.approbations;
        },
      )
      else (no_rows, st)

  abbrev pub decide_row : Bool → String → String → ApprobationRow → ApprobationRow
  decide_row approve decided_by reason a = record a {
    statut = if approve then approuve else refuse;
    decided_by = some decided_by;
    reason = some reason;
    decided_at = some now;
  }

  abbrev pub decide_found :
      String
      → String
      → String
      → Bool
      → Option ApprobationRow
      → Exec MemoryState (Option ApprobationRow)
  decide_found c by reason approve none st = (ok none, st)
  decide_found c by reason approve (some a) st =
      if is_en_attente a.statut
      then (
        ok (some (decide_row approve by reason a)),
        record st { approbations = modify c (decide_row approve by reason) st.approbations },
      )
      else (ok none, st)

  abbrev pub create_found :
      String
      → String
      → Option String
      → Option Amount
      → Option String
      → Option ApprobationRow
      → Exec MemoryState ApprobationRow
  create_found c t claim montant by (some old) st = (ok old, st)
  create_found c t claim montant by none st =
      let row : ApprobationRow = record {
        id = c;
        correlation_id = c;
        type_name = t;
        claim_id = claim;
        montant_eur = montant;
        statut = en_attente;
        requested_by = by;
        decided_by = none;
        reason = none;
        decided_at = none;
        created_at = now;
        execution = none;
      } in
      (ok row, record st { approbations = insert c row st.approbations })

  abbrev same_statut : Statut → Statut → Bool
  same_statut en_attente en_attente = true
  same_statut approuve approuve = true
  same_statut refuse refuse = true
  same_statut expire expire = true
  same_statut _ _ = false

  -- The repository in memory: a transaction is never rolled back.
  abbrev pub memory_repository : Repository MemoryState
  memory_repository = record {
    find_sinistre = λ claim_id st. (ok (lookup claim_id st.sinistres), st);
    is_command_consumed = λ id st. (ok (member id st.consumed), st);
    get_kill_switch = λ st. (ok st.kill_switch, st);
    append_audit = λ c source action payload hash prev_hash st. (
      ok tt,
      record st {
        audit =
            st.audit
            ++ record {
              seq = length st.audit + 1;
              correlation_id = c;
              source = source;
              action = action;
              payload = stringify (payload_or_empty payload);
              prev_hash = prev_hash;
              hash = hash;
              created_at = now;
            }
              ∷ [];
      },
    );
    query = λ q st. let (reply, after) = memory_query (sql q) (params q) st in (ok reply, after);
    rollback = λ before after. after;
    list_approvals = λ statut limit st. (
      ok (
          take limit (
            select (λ (a : ApprobationRow). same_statut a.statut statut)
              (map (λ (kv : String × ApprobationRow). kv.1) st.approbations))),
      st,
    );
    create_approbation = λ c t claim montant reason by st.
        create_found c t claim montant by (lookup c st.approbations) st;
    decide_approbation =
        λ c by reason approve st. decide_found c by reason approve (lookup c st.approbations) st;
    set_kill_switch = λ actif by st. (
      ok tt,
      record st {
        kill_switch = some (record {
          id = 1;
          actif = actif;
          active_par = some by;
          active_le = if actif then some now else none;
        });
      },
    );
    note_execution = λ c outcome st. record st {
      approbations =
          modify c (λ (a : ApprobationRow). record a { execution = some outcome }) st.approbations;
    };
  }
