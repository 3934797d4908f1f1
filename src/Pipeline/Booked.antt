-- ===== src/Pipeline/Booked.antt =====
-- The effect of each command (`runPipeline` of buzz-hermes-bridge/src/pipeline.ts, `settleClaimEffect`
-- of db/repository.ts) on the store in memory, claim by claim: what every claim, the ledger and the
-- kill-switch hold afterwards.
use assurance_toto.Prelude.{
  ℕ, min, neg_abs, String, Bool, true, false, Option, none, some, List, [], ◌∷◌, ◌++◌, ◌≡◌, refl,
  sym, subst, ◌∙◌, lookup, ◌==◌, eq_iff, inl, inr, Bool-cases, if◌then◌else◌,
}
use assurance_toto.Json.{Json}
use assurance_toto.Commands.{
  Command, claim_settlement_approve, claim_settlement_reject, policy_pricing_exception_approve,
  agent_killswitch_activate, agent_killswitch_deactivate, finance_report_request,
}
use assurance_toto.Exec.{ok}
use assurance_toto.Rows.{SinistreRow, KillSwitchRow, PnlRow}
use assurance_toto.Repository.Memory.{MemoryState, memory_repository, modify}
use assurance_toto.Pipeline.Effects.{business_effect}
use assurance_toto.Pipeline.Books.{Books, books, book, effect-books}

abbrev concerns : Command → String → Bool
concerns (claim_settlement_approve claim _ _ _ _) k = claim == k
concerns (claim_settlement_reject claim _ _ _) k = claim == k
concerns _ k = false

-- A claim as a command leaves it.
abbrev after_claim : Bool → Option SinistreRow → Option SinistreRow
after_claim true (some s) = some (record s { statut = "regle" })
after_claim true none = none
after_claim false o = o

module _ (threshold : ℕ) (c : String) where
  abbrev pub LedgerAfter : Command → List PnlRow → List PnlRow → Type 0
  LedgerAfter (claim_settlement_approve _ max_amount _ _ _) old new =
      (row : PnlRow) × (new ≡ old ++ row ∷ [])
      × (row.correlation_id ≡ c)
      × (row.categorie ≡ "reglement")
      × (row.montant ≡ neg_abs (min max_amount threshold))
  LedgerAfter _ old new = new ≡ old

abbrev IsSwitch : Bool → String → Option KillSwitchRow → Type 0
IsSwitch actif by new =
    (k : KillSwitchRow) × (new ≡ some k) × (k.actif ≡ actif) × (k.active_par ≡ some by)

abbrev pub SwitchAfter : Command → Option KillSwitchRow → Option KillSwitchRow → Type 0
SwitchAfter (agent_killswitch_activate by _ _) old new = IsSwitch true by new
SwitchAfter (agent_killswitch_deactivate by _ _) old new = IsSwitch false by new
SwitchAfter _ old new = new ≡ old

pub record Booked (threshold : ℕ) (c : String) (cmd : Command) (old new : Books) : Type 0 where
  pub claims :
      (k : String) → lookup k new.sinistres ≡ after_claim (concerns cmd k) (lookup k old.sinistres)
  pub ledger : LedgerAfter threshold c cmd old.pnl new.pnl
  pub switch : SwitchAfter cmd old.kill_switch new.kill_switch
  pub consumed : new.consumed ≡ old.consumed

after_claim-none : (b : Bool) → none ≡ after_claim b none
after_claim-none true = refl
after_claim-none false = refl

after_claim-if :
    (b : Bool) (s : SinistreRow) (o : Option SinistreRow)
    → (if b then some (record s { statut = "regle" }) else o)
      ≡ after_claim b (if b then some s else o)
after_claim-if true s o = refl
after_claim-if false s o = refl

lookup-settle :
    (claim k : String) (m : List (String × SinistreRow))
    → lookup k (modify claim (λ (s : SinistreRow). record s { statut = "regle" }) m)
      ≡ after_claim (claim == k) (lookup k m)
unfolding lookup modify
lookup-settle claim k [] = after_claim-none (claim == k)
lookup-settle claim k ((j, s) ∷ m) = elim (Bool-cases (j == claim)) [
  | inl named ↦
      let same : j ≡ claim = (eq_iff j claim).0 named in
      rw (named, sym same) (after_claim-if (j == k) s (lookup k m))
  | inr other ↦ rw other (elim (Bool-cases (j == k)) [
    | inl here ↦
        let same : j ≡ k = (eq_iff j k).0 here in
        let differs : (claim == k) ≡ false = elim (Bool-cases (claim == k)) [
          | inr apart ↦ apart
          | inl again ↦
              let both : (j == claim) ≡ true =
                (eq_iff j claim).1 (same ∙ sym ((eq_iff claim k).0 again)) in
              absurd (cc (both, other))
        ] in
        rw (here, differs) refl
    | inr later ↦ rw later (lookup-settle claim k m)
  ])
]

module _ (now : String) (threshold : ℕ) (c : String) where
  kept :
      (cmd : Command) (b : Books)
      → ((k : String) → concerns cmd k ≡ false)
      → LedgerAfter threshold c cmd b.pnl b.pnl
      → SwitchAfter cmd b.kill_switch b.kill_switch
      → Booked threshold c cmd b b
  kept cmd b apart l s = record {
    claims = λ k. rw (apart k) refl;
    ledger = l;
    switch = s;
    consumed = refl;
  }

  book-Booked : (cmd : Command) (b : Books) → Booked threshold c cmd b (book now threshold c cmd b)
  book-Booked (claim_settlement_approve claim _ _ _ _) b = record {
    claims = λ k. lookup-settle claim k b.sinistres;
    ledger = (_, refl, refl, refl, refl);
    switch = refl;
    consumed = refl;
  }
  book-Booked (claim_settlement_reject claim _ _ _) b = record {
    claims = λ k. lookup-settle claim k b.sinistres;
    ledger = refl;
    switch = refl;
    consumed = refl;
  }
  book-Booked (agent_killswitch_activate _ _ _) b = record {
    claims = λ k. refl;
    ledger = refl;
    switch = (_, refl, refl, refl);
    consumed = refl;
  }
  book-Booked (agent_killswitch_deactivate _ _ _) b = record {
    claims = λ k. refl;
    ledger = refl;
    switch = (_, refl, refl, refl);
    consumed = refl;
  }
  book-Booked (policy_pricing_exception_approve k p r by at) b =
      kept (policy_pricing_exception_approve k p r by at) b (λ k. refl) refl refl
  book-Booked (finance_report_request p ds by at) b =
      kept (finance_report_request p ds by at) b (λ k. refl) refl refl

  -- The effect of every command on the store in memory returns. The claim that a settlement or its
  -- refusal names gets the status "regle", if it is stored, and every other claim stays as it was; a
  -- settlement adds one row to the ledger, an expense of the requested amount and at most the threshold,
  -- and no other command adds any; the two orders for the kill-switch set it, with their author, and no
  -- other command does; the consumed commands stay.
  pub effect-Booked :
      (cmd : Command) (st : MemoryState)
      → (effect : Json) × ((business_effect (memory_repository now) threshold c cmd st).0
          ≡ ok effect)
        × Booked threshold c cmd
            (books st)
            (books (business_effect (memory_repository now) threshold c cmd st).1)
  effect-Booked cmd st =
      let (effect, returned, left) = effect-books now threshold c cmd st in
      (effect, returned, subst (Booked threshold c cmd (books st)) (sym left) (book-Booked cmd _))
