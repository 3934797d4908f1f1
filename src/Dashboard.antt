-- ===== src/Dashboard.antt =====
-- The cockpit page of buzz-hermes-bridge/src/dashboard/dashboard.ts, and the snapshot of
-- db/repository.ts that it shows. `Intl`, `Date`, `toFixed` and `localeCompare` are parameters.
pub mod Sections
pub mod Money
pub mod Page
pub mod Markup
pub mod Shape
pub mod Safe
use Prim.Native.String
use assurance_toto.Prelude.{
  ℕ, String, Bool, true, false, Option, none, some, List, [], ◌∷◌, ℤ, Char, code, nat_eq,
  if◌then◌else◌, template,
}
use assurance_toto.Rows.{ApprobationRow, KillSwitchRow, Amount}

pub record PnlSummary : Type 0 where
  pub resultat_cumule : ℤ
  pub nb_ecritures : ℕ
  pub latest : Option String

pub record PnlWeeklyRow : Type 0 where
  pub semaine_iso : String
  pub departement : String
  pub resultat_net : ℤ

-- `R` stands for the JavaScript numbers that are only printed.
pub record RatioSinistraliteRow (R : Type 0) : Type 0 where
  pub departement : String
  pub ratio : Option R

pub record PipelineStats : Type 0 where
  pub leads : Option ℕ
  pub contrats : ℕ
  pub clients : ℕ
  pub latest : Option String

pub record SinistreStatsRow : Type 0 where
  pub statut : String
  pub nb : ℕ
  pub montant : ℕ

pub record SinistresStats : Type 0 where
  pub rows : List SinistreStatsRow
  pub latest : Option String

pub record MacroIndicateurRow (R : Type 0) : Type 0 where
  pub indicateur : String
  pub valeur : Option R
  pub periode : Option String
  pub source : Option String
  pub created_at : String

pub record AnonymisationStats : Type 0 where
  pub tracked : Bool
  pub count : ℕ

pub record AuditTimelineRow : Type 0 where
  pub created_at : String
  pub source : String
  pub action : String
  pub correlation_id : Option String

pub record DashboardSnapshot (R : Type 0) : Type 0 where
  pub pnl : PnlSummary
  pub pnl_hebdo : List PnlWeeklyRow
  pub ratios : List (RatioSinistraliteRow R)
  pub pipeline : PipelineStats
  pub sinistres : SinistresStats
  pub approbations_en_attente : List ApprobationRow
  pub macro : List (MacroIndicateurRow R)
  pub anonymisation : AnonymisationStats
  pub kill_switch : Option KillSwitchRow
  pub timeline : List AuditTimelineRow

-- What JavaScript's formatters print.
pub record Formats (R : Type 0) : Type 0 where
  -- `eur.format`, of an amount in hundredths and of a stored amount
  pub fmt_eur : ℤ → String
  pub fmt_amount : Amount → String
  -- `new Date(iso).toLocaleString(...)`, with `none` for an invalid date
  pub local_date : String → Option String
  -- `(r * 100).toFixed(1)`, and `(a / b * 100).toFixed(1)`
  pub percent : R → String
  pub share : ℕ → ℕ → String
  -- `String(r)`
  pub number_text : R → String
  -- `a.localeCompare(b) < 0`
  pub comes_before : String → String → Bool

-- `s.replaceAll(c, by)`, for one character
unfoldable pub replace_all : (c : ℕ) (by : String) → String → String
replace_all c by String.[] = ""
replace_all c by (String.◌∷◌ d s) =
    let rest : String = replace_all c by s in
    if nat_eq (code d) c then String.◌++◌ by rest else String.◌∷◌ d rest

unfoldable pub esc : String → String
esc s = replace_all b'\'' "&#39;" (
    replace_all b'"' "&quot;"
      (replace_all b'>' "&gt;" (replace_all b'<' "&lt;" (replace_all b'&' "&amp;" s))))

abbrev pub unavailable : String
unavailable =
    "\n  <div class=\"unavailable\">\n    <strong>Section unavailable</strong>\n    <p>The data source did not respond. The rest of the cockpit remains viewable.</p>\n  </div>"

-- `${cond ? text : ''}`
abbrev pub or_blank : Bool → String → String
or_blank true text = text
or_blank false text = ""

module _ {R : Type 0} (formats : Formats R) where
  abbrev date_text : String → Option String → String
  date_text iso none = esc iso
  date_text iso (some text) = text

  -- `fmtDate`
  unfoldable pub fmt_date : Option String → String
  fmt_date none = "n-d"
  fmt_date (some String.[]) = "n-d"
  fmt_date (some iso) = date_text iso (formats.local_date iso)

  unfoldable pub freshness : Option String → String
  freshness latest =
      template ("<span class=\"freshness\">Data as of " ∷ esc (fmt_date latest) ∷ "</span>" ∷ [])

unfoldable pub card : String → String → String
card titre inner = template (
    "<section class=\"card\"><div class=\"card-head\"><h2>" ∷ titre ∷ "</h2></div>" ∷ inner
    ∷ "</section>" ∷ [])
