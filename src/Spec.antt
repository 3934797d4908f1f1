-- ===== src/Spec.antt =====
-- The abstract machine that the bridge carries out (buzz-hermes-bridge/src/pipeline.ts and
-- http/server.ts): its state is the books, its steps are the execution of one command that was not
-- consumed and that the policy allows, and the setting of the kill-switch. Envelopes, schemas, the audit
-- log, the approvals and the adapter are forgotten.
pub mod Ledger
use assurance_toto.Prelude.{
  ℕ, String, Bool, true, false, not, ◌&&◌, Option, none, some, List, [], ◌≡◌, member, lookup,
  if◌then◌else◌,
}
use assurance_toto.Commands.{Command}
use assurance_toto.Policy.{Role, PolicyContext, evaluate}
use assurance_toto.Rows.{KillSwitchRow, SinistreRow}
use assurance_toto.Pipeline.Types.{is_claim, claim_id_of}
use assurance_toto.Pipeline.Books.{Books, book, consume}

-- What the policy looks at.
abbrev pub view_of : ℕ → Command → Books → PolicyContext
view_of threshold cmd b = record {
  kill_switch = b.kill_switch;
  sinistre = if is_claim cmd then lookup (claim_id_of cmd) b.sinistres else none;
  command_consumed = false;
  approbation = none;
  threshold_eur = threshold;
}

abbrev pub set_switch : KillSwitchRow → Books → Books
set_switch row b = record b { kill_switch = some row }

pub data Step (threshold : ℕ) (b : Books) : Books → Type 0 where
  stay : Step threshold b b
  execute :
      (now correlation_id key : String) (cmd : Command) (role : Role)
      → member key b.consumed ≡ false
      → (evaluate cmd (view_of threshold cmd b) role).allowed ≡ true
      → Step threshold b (book now threshold correlation_id cmd (consume key b))
  switch : (row : KillSwitchRow) → Step threshold b (set_switch row b)

pub data Reach (threshold : ℕ) (b : Books) : Books → Type 0 where
  here : Reach threshold b b
  next : {c d : Books} → Reach threshold b c → Step threshold c d → Reach threshold b d

pub Reach-trans :
    {threshold : ℕ} {b c d : Books}
    → Reach threshold b c
    → Reach threshold c d
    → Reach threshold b d
Reach-trans r here = r
Reach-trans r (next s t) = next (Reach-trans r s) t
