-- ===== src/Dashboard/Money.antt =====
-- The P&L section of the cockpit, with its trend bars (buzz-hermes-bridge/src/dashboard/dashboard.ts).
use Prim.Native.String
use assurance_toto.Prelude.{
  ℕ, zero, suc, ◌+◌, ◌*◌, ◌-◌, ◌/◌, String, Bool, not, Option, none, some, List, [], ◌∷◌, ℤ, pos,
  pos_part, neg_part, ◌+ℤ◌, ltb_ℤ, map, select, drop, length, lookup, insert, or_else, decimal, leb,
  template, ◌==◌, if◌then◌else◌,
}
use assurance_toto.Dashboard.{
  Formats, PnlSummary, PnlWeeklyRow, RatioSinistraliteRow, esc, freshness, card,
}
use assurance_toto.Dashboard.Sections.{unless_empty}

unfoldable pub signed : ℤ → String
signed n = if ltb_ℤ (pos 0) n then "pos" else if ltb_ℤ n (pos 0) then "neg" else "zero"

unfoldable pub cls : ℤ → String
cls n = if ltb_ℤ (pos 0) n then "good" else if ltb_ℤ n (pos 0) then "bad" else "muted"

-- `s.slice(n)`, in characters
unfoldable pub drop_chars : ℕ → String → String
drop_chars zero s = s
drop_chars (suc n) String.[] = ""
drop_chars (suc n) (String.◌∷◌ c s) = drop_chars n s

abbrev pub abs : ℤ → ℕ
abs n = pos_part n + neg_part n

abbrev pub at_least : ℕ → ℕ → ℕ
at_least a b = if leb a b then b else a

-- `Math.round((Math.abs(v) / maxAbs) * 100)`, of the exact quotient
abbrev pub bar_height : ℤ → ℕ → ℕ
bar_height v max_abs = (200 * abs v + max_abs) / (2 * max_abs)

-- `Math.max(...series.map(([, v]) => Math.abs(v)), 1)`, in hundredths
abbrev pub max_abs : List (String × ℤ) → ℕ
max_abs [] = 100
max_abs ((week, v) ∷ rest) = at_least (max_abs rest) (abs v)

-- The sums by week, in the order of the first row of each.
unfoldable pub by_week : List (String × ℤ) → List PnlWeeklyRow → List (String × ℤ)
by_week weeks [] = weeks
by_week weeks (r ∷ rs) =
    by_week
      (insert r.semaine_iso (or_else (lookup r.semaine_iso weeks) (pos 0) +ℤ r.resultat_net) weeks)
      rs

module _ (before : String → String → Bool) where
  abbrev insert_week : String × ℤ → List (String × ℤ) → List (String × ℤ)
  insert_week (w, v) [] = (w, v) ∷ []
  insert_week (w, v) ((x, u) ∷ rest) =
      let later = insert_week (w, v) rest in
      if before x w then (x, u) ∷ later else (w, v) ∷ (x, u) ∷ rest

  -- `sort` by a comparison of the weeks
  abbrev pub sort_weeks : List (String × ℤ) → List (String × ℤ)
  sort_weeks [] = []
  sort_weeks (x ∷ xs) = insert_week x (sort_weeks xs)

module _ {R : Type 0} (formats : Formats R) where
  -- The eight last weeks.
  unfoldable pub trend_series : List PnlWeeklyRow → List (String × ℤ)
  trend_series rows =
      let sorted = sort_weeks formats.comes_before (by_week [] rows) in
      drop (length sorted - 8) sorted

  unfoldable pub bar_of : ℕ → String × ℤ → String
  bar_of max_abs (week, v) = template (
      "<div class=\"bar-col\" title=\""
      ∷ esc week
      ∷ " : "
      ∷ esc (formats.fmt_eur v)
      ∷ "\">\n        <div class=\"bar-wrap\"><div class=\"bar "
      ∷ signed v
      ∷ "\" style=\"height:"
      ∷ decimal (at_least 3 (bar_height v max_abs))
      ∷ "%\"></div></div>\n        <div class=\"bar-label mono\">"
      ∷ esc (drop_chars 5 week)
      ∷ "</div>\n      </div>"
      ∷ [])

  abbrev pub trend_of : List (String × ℤ) → String
  trend_of [] = "<p class=\"muted\">No weekly P&amp;L entry.</p>"
  trend_of (s ∷ rest) =
      let series : List (String × ℤ) = s ∷ rest in
      template
        ("<div class=\"trend\">" ∷ template (map (bar_of (max_abs series)) series) ∷ "</div>" ∷ [])

  unfoldable pub trend_bars : List PnlWeeklyRow → String
  trend_bars rows = trend_of (trend_series rows)

  abbrev pub first_value : List (String × ℤ) → Option ℤ
  first_value [] = none
  first_value ((w, v) ∷ rest) = some v

  -- The sum of the latest week that has a name.
  unfoldable pub last_week : List PnlWeeklyRow → Option ℤ
  last_week rows = first_value (
      sort_weeks (λ a b. formats.comes_before b a)
        (select (λ (kv : String × ℤ). not (kv.0 == "n-d")) (by_week [] rows)))

  abbrev pub last_week_text : Option ℤ → String
  last_week_text none = ""
  last_week_text (some v) = template (
      "<div class=\"kpi\"><div class=\"v "
      ∷ cls v
      ∷ "\">"
      ∷ esc (formats.fmt_eur v)
      ∷ "</div><div class=\"l\">Net result — last week (all departments)</div></div>"
      ∷ [])

  abbrev pub ratio_text : Option R → String
  ratio_text none = "n-d"
  ratio_text (some r) = String.◌++◌ (formats.percent r) " %"

  unfoldable pub ratio_row : RatioSinistraliteRow R → String
  ratio_row r = template (
      "<tr><td>"
      ∷ esc r.departement
      ∷ "</td><td class=\"mono\">"
      ∷ ratio_text r.ratio
      ∷ "</td></tr>"
      ∷ [])

  -- `pnlSection`
  unfoldable pub pnl_section :
      PnlSummary → List PnlWeeklyRow → List (RatioSinistraliteRow R) → String
  pnl_section pnl hebdo ratios = card "P&amp;L" (
      template (
        "\n        <div class=\"kpis\">\n          <div class=\"kpi\"><div class=\"v "
        ∷ cls pnl.resultat_cumule
        ∷ "\">"
        ∷ esc (formats.fmt_eur pnl.resultat_cumule)
        ∷ "</div><div class=\"l\">Cumulative net result ("
        ∷ decimal pnl.nb_ecritures
        ∷ " entries)</div></div>\n          "
        ∷ last_week_text (last_week hebdo)
        ∷ "\n        </div>\n        "
        ∷ unless_empty ratios "<p class=\"muted\">No claims-to-premiums ratio.</p>" (
            template (
              "<table><thead><tr><th>Department</th><th>Claims-to-premiums ratio</th></tr></thead><tbody>"
              ∷ template (map ratio_row ratios)
              ∷ "</tbody></table>"
              ∷ []))
        ∷ "\n        "
        ∷ trend_bars hebdo
        ∷ "\n        "
        ∷ freshness formats pnl.latest
        ∷ "\n      "
        ∷ []))
