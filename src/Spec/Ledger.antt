-- ===== src/Spec/Ledger.antt =====
-- The soundness of the books (buzz-hermes-bridge/src/pipeline.ts: consumed commands and ledger), over
-- runs of the abstract machine.
use assurance_toto.Prelude.{
  ◌==◌, ℕ, zero, suc, ◌+◌, ◌≤◌, min, String, false, List, [], ◌∷◌, ◌++◌, ◌≡◌, refl, arith, eq_iff,
  member, length, pos_part, neg_part, neg_abs,
}
use assurance_toto.Commands.{Command, claim_settlement_approve}
use assurance_toto.Rows.{PnlRow}
use assurance_toto.Pipeline.Books.{Books, book, consume}
use assurance_toto.Spec.{Step, stay, execute, switch, Reach, here, next}

abbrev pub NoRepeat : List String → Type 0
NoRepeat [] = Unit
NoRepeat (x ∷ xs) = (member x xs ≡ false) × NoRepeat xs

-- An expense within the threshold.
abbrev pub IsExpense : ℕ → PnlRow → Type 0
IsExpense threshold row = (pos_part row.montant ≡ 0) × (neg_part row.montant ≤ threshold)

abbrev pub AllExpenses : ℕ → List PnlRow → Type 0
AllExpenses threshold [] = Unit
AllExpenses threshold (row ∷ rows) = IsExpense threshold row × AllExpenses threshold rows

pub record IsSound (threshold : ℕ) (b : Books) : Type 0 where
  pub once : NoRepeat b.consumed
  pub covered : length b.pnl ≤ length b.consumed
  pub expenses : AllExpenses threshold b.pnl

member-snoc_ne :
    (x y : String) (xs : List String)
    → member x xs ≡ false
    → (y == x) ≡ false
    → member x (xs ++ y ∷ []) ≡ false
unfolding member
member-snoc_ne x y [] h n = ground (arith, n)
member-snoc_ne x y (z ∷ zs) h n = ground (arith, member-snoc_ne x y zs)

NoRepeat-snoc :
    (x : String) (xs : List String) → NoRepeat xs → member x xs ≡ false → NoRepeat (xs ++ x ∷ [])
unfolding member
NoRepeat-snoc x [] h f = (refl, tt)
NoRepeat-snoc x (y ∷ ys) h f = (
  member-snoc_ne y x ys h.0 (ground (arith, f, eq_iff x y, eq_iff y x)),
  NoRepeat-snoc x ys h.1 (ground (arith, f)),
)

length-snoc {ℓ} : {A : Type ℓ} (xs : List A) (x : A) → length (xs ++ x ∷ []) ≡ length xs + 1
length-snoc [] x = refl
length-snoc (y ∷ ys) x = omega (arith, length-snoc ys x)

AllExpenses-snoc :
    (t : ℕ) (rows : List PnlRow) (row : PnlRow)
    → AllExpenses t rows
    → IsExpense t row
    → AllExpenses t (rows ++ row ∷ [])
AllExpenses-snoc t [] row h e = (e, tt)
AllExpenses-snoc t (r ∷ rs) row h e = (h.0, AllExpenses-snoc t rs row h.1 e)

neg_abs-IsExpense : (n t : ℕ) → n ≤ t → (pos_part (neg_abs n) ≡ 0) × (neg_part (neg_abs n) ≤ t)
neg_abs-IsExpense zero t h = (refl, omega arith)
neg_abs-IsExpense (suc n) t h = (refl, h)

execute-IsSound :
    (now c key : String) (t : ℕ) (cmd : Command) (b : Books)
    → member key b.consumed ≡ false
    → IsSound t b
    → IsSound t (book now t c cmd (consume key b))
execute-IsSound now c key t (claim_settlement_approve claim m r by at) b fresh s = record {
  once = NoRepeat-snoc key b.consumed s.once fresh;
  covered =
      let grown = length-snoc b.consumed key in
      let p = s.covered in omega (arith, length-snoc b.pnl _, grown, p);
  expenses = AllExpenses-snoc t b.pnl _ s.expenses (neg_abs-IsExpense (min m t) t (omega arith));
}
execute-IsSound now c key t cmd b fresh s = record {
  once = NoRepeat-snoc key b.consumed s.once fresh;
  covered = let grown = length-snoc b.consumed key in let p = s.covered in omega (arith, grown, p);
  expenses = s.expenses;
}

Step-IsSound : {t : ℕ} {b d : Books} → Step t b d → IsSound t b → IsSound t d
Step-IsSound stay s = s
Step-IsSound (execute now c key cmd role fresh allowed) s =
    execute-IsSound now c key _ cmd _ fresh s
Step-IsSound (switch row) s = record { once = s.once; covered = s.covered; expenses = s.expenses }

pub Reach-IsSound : {t : ℕ} {b d : Books} → Reach t b d → IsSound t b → IsSound t d
Reach-IsSound here s = s
Reach-IsSound (next r step) s = Step-IsSound step (Reach-IsSound r s)
