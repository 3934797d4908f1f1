-- ===== src/Pipeline/Books.antt =====
-- The effect of an executed command (buzz-hermes-bridge/src/pipeline.ts, `settleClaimEffect` of
-- db/repository.ts) on the store in memory: its claims, kill-switch, consumed commands and ledger.
use assurance_toto.Prelude.{
  neg_abs, min, includes, ℕ, ◌+◌, String, Bool, true, false, Option, some, List, [], ◌∷◌, ◌++◌, ◌≡◌,
  refl, arith, length, template,
}
use assurance_toto.Json.{Json}
use assurance_toto.Commands.{
  Command, claim_settlement_approve, claim_settlement_reject, policy_pricing_exception_approve,
  agent_killswitch_activate, agent_killswitch_deactivate, finance_report_request,
}
use assurance_toto.Exec.{ok, ◌>>=◌}
use assurance_toto.Rows.{SinistreRow, KillSwitchRow, PnlRow}
use assurance_toto.Repository.{sql}
use assurance_toto.Repository.Memory.{MemoryState, memory_repository, memory_query, modify}
use assurance_toto.Pipeline.Effects.{business_effect, settle_claim_effect}

pub record Books : Type 0 where
  pub sinistres : List (String × SinistreRow)
  pub kill_switch : Option KillSwitchRow
  pub consumed : List String
  pub pnl : List PnlRow

abbrev pub books : MemoryState → Books
books st = record {
  sinistres = st.sinistres;
  kill_switch = st.kill_switch;
  consumed = st.consumed;
  pnl = st.pnl;
}

abbrev pub consume : String → Books → Books
consume id b = record b { consumed = b.consumed ++ id ∷ [] }

abbrev switched : Bool → String → String → Books → Books
switched actif by now b = record b {
  kill_switch = some (record { id = 1; actif = actif; active_par = some by; active_le = some now });
}

-- What each command does to the books, with the cap of a settlement and the new status written out.
abbrev pub book : (now : String) (threshold : ℕ) (correlation_id : String) → Command → Books → Books
book now threshold c (claim_settlement_approve claim max_amount _ _ _) b = record b {
  sinistres = modify claim (λ (s : SinistreRow). record s { statut = "regle" }) b.sinistres;
  pnl =
      b.pnl
      ++ record {
        id = length b.pnl + 1;
        correlation_id = c;
        departement = "auto";
        categorie = "reglement";
        montant = neg_abs (min max_amount threshold);
        description = template ("Settlement claim " ∷ claim ∷ []);
      }
        ∷ [];
}
book now threshold c (claim_settlement_reject claim _ _ _) b = record b {
  sinistres = modify claim (λ (s : SinistreRow). record s { statut = "regle" }) b.sinistres;
}
book now threshold c (agent_killswitch_activate by _ _) b = switched true by now b
book now threshold c (agent_killswitch_deactivate by _ _) b = switched false by now b
book now threshold c _ b = b

module _ (now : String) (threshold : ℕ) (c : String) where
  -- The effect of every command returns, and books what `book` says.
  pub effect-books :
      (cmd : Command) (st : MemoryState)
      → (effect : Json) × ((business_effect (memory_repository now) threshold c cmd st).0
          ≡ ok effect)
        × (books (business_effect (memory_repository now) threshold c cmd st).1
            ≡ book now threshold c cmd (books st))
  unfolding business_effect settle_claim_effect ◌>>=◌ memory_query sql includes
  effect-books (claim_settlement_approve claim m r by at) st = (_, refl, refl)
  effect-books (claim_settlement_reject claim r by at) st = (_, refl, refl)
  effect-books (agent_killswitch_activate by r at) st = (_, refl, refl)
  effect-books (agent_killswitch_deactivate by r at) st = (_, refl, refl)
  effect-books (policy_pricing_exception_approve k p r by at) st = (_, refl, ground arith)
  effect-books (finance_report_request p ds by at) st = (_, refl, refl)
