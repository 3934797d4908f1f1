-- ===== src/Rows.antt =====
-- The row types of buzz-hermes-bridge/src/db/repository.ts. Amounts are hundredths of a euro; a
-- time stamp is the text that the clock gave.
use assurance_toto.Prelude.{
  digits_value-decimal, every_char-decimal, is_digit, ◌*◌, if◌then◌else◌, ℕ, String, Bool, true,
  false, Option, ℤ, digits_value, decimal, ◌≡◌, every_char,
}

pub record SinistreRow : Type 0 where
  pub id : String
  pub statut : String
  pub montant_eur : ℕ
  pub compliance_bloque : Bool

pub data Statut : Type 0 where
  en_attente approuve refuse expire : Statut

abbrev pub is_en_attente : Statut → Bool
is_en_attente en_attente = true
is_en_attente _ = false

pub data Outcome : Type 0 where
  executed denied consumed dlq : Outcome

-- A JavaScript number of euros, in hundredths, or `NaN`.
pub data Amount : Type 0 where
  eur : ℕ → Amount
  not_a_number : Amount

-- `Number(s)` of a text of digits; any other text that reaches it is no number.
unfoldable pub number_of_text : String → Amount
unfolding digits_value every_char
number_of_text s = if every_char is_digit s then eur (100 * digits_value 0 s) else not_a_number

pub number_of_text-decimal : (n : ℕ) → number_of_text (decimal n) ≡ eur (100 * n)
unfolding number_of_text
number_of_text-decimal n = rw (every_char-decimal n, digits_value-decimal n)

pub record ApprobationRow : Type 0 where
  pub id : String
  pub correlation_id : String
  pub type_name : String
  pub claim_id : Option String
  pub montant_eur : Option Amount
  pub statut : Statut
  pub requested_by : Option String
  pub decided_by : Option String
  pub reason : Option String
  pub decided_at : Option String
  pub created_at : String
  pub execution : Option Outcome

pub record KillSwitchRow : Type 0 where
  pub id : ℕ
  pub actif : Bool
  pub active_par : Option String
  pub active_le : Option String

pub record PnlRow : Type 0 where
  pub id : ℕ
  pub correlation_id : String
  pub departement : String
  pub categorie : String
  pub montant : ℤ
  pub description : String

pub record AuditRow : Type 0 where
  pub seq : ℕ
  pub correlation_id : String
  pub source : String
  pub action : String
  pub payload : String
  pub prev_hash : String
  pub hash : String
  pub created_at : String
