-- ===== src/Dashboard/Sections.antt =====
-- The sections of the cockpit but its money: approvals, audit timeline, kill-switch, compliance, claims
-- and the sales pipeline (`renderDashboard` of buzz-hermes-bridge/src/dashboard/dashboard.ts).
use Prim.Native.String
use assurance_toto.Prelude.{
  ℕ, ◌+◌, String, Bool, false, not, ◌&&◌, Option, none, some, List, [], ◌∷◌, map, select, length,
  decimal, take_chars, or_else, pos, ltb, leb, template, ◌==◌, if◌then◌else◌,
}
use assurance_toto.Rows.{ApprobationRow, KillSwitchRow, Amount}
use assurance_toto.Dashboard.{
  Formats, PipelineStats, SinistreStatsRow, SinistresStats, MacroIndicateurRow, AnonymisationStats,
  AuditTimelineRow, esc, or_blank, fmt_date, freshness, card,
}

-- `rows.map(...).join('')` is `template` of the rows; a table stands behind a test for no rows.
abbrev pub unless_empty : {A : Type 0} → List A → String → String → String
unless_empty [] none_text table = none_text
unless_empty (x ∷ xs) none_text table = table

-- `xs[0]?.created_at ?? null`
abbrev pub first_date : {A : Type 0} → (A → String) → List A → Option String
first_date date [] = none
first_date date (x ∷ xs) = some (date x)

-- `order.indexOf(statut)`, with 0 for a status that is not there
abbrev pub statut_rank : String → ℕ
statut_rank s =
    if s == "ouvert"
    then 1
    else if s == "en_cours"
    then 2
    else if s == "contentieux"
    then 3
    else if s == "regle"
    then 4
    else if s == "refuse"
    then 5
    else 0

unfoldable pub insert_stats : SinistreStatsRow → List SinistreStatsRow → List SinistreStatsRow
insert_stats r [] = r ∷ []
insert_stats r (x ∷ xs) =
    let rest = insert_stats r xs in
    if leb (statut_rank r.statut) (statut_rank x.statut) then r ∷ x ∷ xs else x ∷ rest

-- `[...rows].sort(...)`, which is stable
unfoldable pub sort_stats : List SinistreStatsRow → List SinistreStatsRow
sort_stats [] = []
sort_stats (r ∷ rs) = insert_stats r (sort_stats rs)

abbrev pub total : List SinistreStatsRow → ℕ
total [] = 0
total (r ∷ rs) = r.montant + total rs

unfoldable pub total_provisionne : List SinistreStatsRow → ℕ
total_provisionne rows = total (
    select (λ (r : SinistreStatsRow). not (r.statut == "regle") && not (r.statut == "refuse")) rows)

unfoldable pub total_regle : List SinistreStatsRow → ℕ
total_regle [] = 0
total_regle (r ∷ rs) = let rest = total_regle rs in if r.statut == "regle" then r.montant else rest

module _ {R : Type 0} (formats : Formats R) where
  abbrev pub is_highlighted : String → String → Bool
  is_highlighted hl c = not (hl == "") && c == hl

  abbrev pub amount_text : Option Amount → String
  amount_text none = "—"
  amount_text (some a) = esc (formats.fmt_amount a)

  unfoldable pub approval_row : String → String → ApprobationRow → String
  approval_row hl ceo a = template (
      "<tr class=\""
      ∷ or_blank (is_highlighted hl a.correlation_id) "hl"
      ∷ "\">\n          <td class=\"mono\">"
      ∷ esc a.correlation_id
      ∷ "</td>\n          <td>"
      ∷ esc a.type_name
      ∷ "</td>\n          <td class=\"mono\">"
      ∷ esc (or_else a.claim_id "—")
      ∷ "</td>\n          <td class=\"mono\">"
      ∷ amount_text a.montant_eur
      ∷ "</td>\n          <td class=\"mono\">"
      ∷ esc (take_chars 16 (or_else a.requested_by "—"))
      ∷ "…</td>\n          <td>\n            <form class=\"inline\" method=\"post\" action=\"/approvals/"
      ∷ esc a.correlation_id
      ∷ "/decide\">\n              <input type=\"hidden\" name=\"decided_by\" value=\""
      ∷ esc ceo
      ∷ "\">\n              <input type=\"hidden\" name=\"reason\" value=\"CEO decision via cockpit (demo)\">\n              <button type=\"submit\" name=\"approve\" value=\"true\">Approve</button>\n              <button class=\"refuse\" type=\"submit\" name=\"approve\" value=\"false\">Reject</button>\n            </form>\n          </td>\n        </tr>"
      ∷ [])

  -- `approSection`
  unfoldable pub approvals_section : String → String → List ApprobationRow → String
  approvals_section hl ceo approvals = card "Pending CEO approvals" (
      template (
        "\n        <div class=\"kpis\"><div class=\"kpi\"><div class=\"count-big "
        ∷ (if ltb 0 (length approvals) then "bad" else "good")
        ∷ "\">"
        ∷ decimal (length approvals)
        ∷ "</div><div class=\"l\">pending</div></div></div>\n        "
        ∷ unless_empty approvals "<p class=\"muted\">No pending requests.</p>" (
            template (
              "<div class=\"scroll\"><table><thead><tr><th>correlation_id</th><th>Type</th><th>Claim</th><th>Amount</th><th>Requester</th><th>Decision</th></tr></thead><tbody>"
              ∷ template (map (approval_row hl ceo) approvals)
              ∷ "</tbody></table></div>"
              ∷ []))
        ∷ "\n        <p class=\"muted\">DEMO decision surface — in production, each decision must be Nostr-signed (kind 9 event verified by the endpoint).</p>\n        "
        ∷ freshness formats (first_date (λ (a : ApprobationRow). a.created_at) approvals)
        ∷ "\n      "
        ∷ []))

  unfoldable pub timeline_row : String → AuditTimelineRow → String
  timeline_row hl t = template (
      "<tr class=\""
      ∷ or_blank (elim t.correlation_id [ none ↦ false | some c ↦ is_highlighted hl c ]) "hl"
      ∷ "\"><td class=\"mono\">"
      ∷ esc (fmt_date formats (some t.created_at))
      ∷ "</td><td>"
      ∷ esc t.source
      ∷ "</td><td>"
      ∷ esc t.action
      ∷ "</td><td class=\"mono\">"
      ∷ esc (or_else t.correlation_id "—")
      ∷ "</td></tr>"
      ∷ [])

  -- `timelineSection`
  unfoldable pub timeline_section : String → List AuditTimelineRow → String
  timeline_section hl timeline = card "Audit timeline (last 25 events)" (
      template (
        "\n        "
        ∷ unless_empty timeline "<p class=\"muted\">Empty audit log.</p>" (
            template (
              "<div class=\"scroll\"><table><thead><tr><th>Timestamp</th><th>Source</th><th>Action</th><th>correlation_id</th></tr></thead><tbody>"
              ∷ template (map (timeline_row hl) timeline)
              ∷ "</tbody></table></div>"
              ∷ []))
        ∷ "\n        <p class=\"muted\">Hash-to-hash chaining verifiable via <code>GET /audit/verify</code> — end-to-end correlation proof.</p>\n      "
        ∷ []))

  abbrev pub holder_text : Option String → Option String → String
  holder_text none at = ""
  holder_text (some String.[]) at = ""
  holder_text (some by) at = template (
      " (by <span class=\"mono\">"
      ∷ esc (take_chars 20 by)
      ∷ "…</span> on "
      ∷ esc (fmt_date formats at)
      ∷ ")"
      ∷ [])

  abbrev pub is_active : Option KillSwitchRow → Bool
  is_active none = false
  is_active (some ks) = ks.actif

  unfoldable pub banner : Option KillSwitchRow → String
  banner none = "<div class=\"ks-banner ks-ok\">Agents operational — kill-switch inactive</div>"
  banner (some ks) =
      if ks.actif
      then template (
          "<div class=\"ks-banner ks-on\">KILL-SWITCH ACTIVE — pipeline suspended"
          ∷ holder_text ks.active_par ks.active_le
          ∷ "</div>"
          ∷ [])
      else "<div class=\"ks-banner ks-ok\">Agents operational — kill-switch inactive</div>"

  -- `ksSection`
  unfoldable pub ks_section : String → Option KillSwitchRow → String
  ks_section ceo ks = card "Agent state &amp; kill-switch" (
      template (
        "\n        "
        ∷ banner ks
        ∷ "\n        <form class=\"inline\" method=\"post\" action=\"/killswitch\">\n          <input type=\"hidden\" name=\"decided_by\" value=\""
        ∷ esc ceo
        ∷ "\">\n          <input type=\"hidden\" name=\"reason\" value=\"cockpit CEO action (demo)\">\n          <button type=\"submit\" name=\"active\" value=\""
        ∷ (if is_active ks then "false" else "true")
        ∷ "\">"
        ∷ (if is_active ks then "Disable kill-switch" else "ENABLE KILL-SWITCH")
        ∷ "</button>\n        </form>\n        <p class=\"muted\">DEMO: authentication via the configured CEO npub. Production: require a signed Nostr event.</p>\n      "
        ∷ []))

  abbrev pub value_text : Option R → String
  value_text none = "n-d"
  value_text (some r) = formats.number_text r

  unfoldable pub macro_row : MacroIndicateurRow R → String
  macro_row m = template (
      "<tr><td>"
      ∷ esc m.indicateur
      ∷ "</td><td class=\"mono\">"
      ∷ value_text m.valeur
      ∷ "</td><td>"
      ∷ esc (or_else m.periode "—")
      ∷ "</td><td>"
      ∷ esc (or_else m.source "—")
      ∷ "</td></tr>"
      ∷ [])

  unfoldable pub anonymisation_text : AnonymisationStats → String
  anonymisation_text a =
      if a.tracked
      then template (
          "<strong>"
          ∷ decimal a.count
          ∷ "</strong> anonymization event(s) traced (pseudo-anonymization before storage, GDPR principle applied to payloads)."
          ∷ [])
      else "Anonymization traceability not countable on this schema — applied principle: pseudo-anonymization before storage (GDPR)."

  -- `conformiteSection`
  unfoldable pub conformite_section : AnonymisationStats → List (MacroIndicateurRow R) → String
  conformite_section anonymisation macro = card "Compliance &amp; macro context" (
      template (
        "\n        <p>"
        ∷ anonymisation_text anonymisation
        ∷ "</p>\n        "
        ∷ unless_empty macro "<p class=\"muted\">No macro indicator.</p>" (
            template (
              "<table><thead><tr><th>Indicator</th><th>Value</th><th>Period</th><th>Source</th></tr></thead><tbody>"
              ∷ template (map macro_row macro)
              ∷ "</tbody></table>"
              ∷ []))
        ∷ "\n        "
        ∷ freshness formats (first_date (λ (m : MacroIndicateurRow R). m.created_at) macro)
        ∷ "\n      "
        ∷ []))

  unfoldable pub stats_row : SinistreStatsRow → String
  stats_row r = template (
      "<tr><td><span class=\"pill\">"
      ∷ esc r.statut
      ∷ "</span></td><td class=\"mono\">"
      ∷ decimal r.nb
      ∷ "</td><td class=\"mono\">"
      ∷ esc (formats.fmt_eur (pos r.montant))
      ∷ "</td></tr>"
      ∷ [])

  -- `sinistresSection`
  unfoldable pub sinistres_section : SinistresStats → String
  sinistres_section s = card "Claims" (
      template (
        "\n        <div class=\"kpis\">\n          <div class=\"kpi\"><div class=\"v\">"
        ∷ esc (formats.fmt_eur (pos (total_provisionne (sort_stats s.rows))))
        ∷ "</div><div class=\"l\">Provisioned (open/in progress/disputed)</div></div>\n          <div class=\"kpi\"><div class=\"v\">"
        ∷ esc (formats.fmt_eur (pos (total_regle (sort_stats s.rows))))
        ∷ "</div><div class=\"l\">Settled</div></div>\n        </div>\n        "
        ∷ unless_empty s.rows "<p class=\"muted\">No claims in the database.</p>" (
            template (
              "<table><thead><tr><th>Status</th><th>Qty</th><th>Amount</th></tr></thead><tbody>"
              ∷ template (map stats_row (sort_stats s.rows))
              ∷ "</tbody></table>"
              ∷ []))
        ∷ "\n        "
        ∷ freshness formats s.latest
        ∷ "\n      "
        ∷ []))

  unfoldable pub conversion : PipelineStats → String
  conversion p =
      if ltb 0 p.clients then String.◌++◌ (formats.share p.contrats p.clients) " %" else "n-d"

  -- `pipelineSection`
  unfoldable pub pipeline_section : PipelineStats → String
  pipeline_section p = card "Sales pipeline" (
      template (
        "\n        <div class=\"kpis\">\n          <div class=\"kpi\"><div class=\"v\">"
        ∷ decimal p.clients
        ∷ "</div><div class=\"l\">Clients</div></div>\n          <div class=\"kpi\"><div class=\"v\">"
        ∷ decimal p.contrats
        ∷ "</div><div class=\"l\">Policies</div></div>\n          <div class=\"kpi\"><div class=\"v\">"
        ∷ esc (conversion p)
        ∷ "</div><div class=\"l\">Policies / client</div></div>\n          <div class=\"kpi\"><div class=\"v muted\">n-d</div><div class=\"l\">Leads (not derivable from current schema)</div></div>\n        </div>\n        "
        ∷ freshness formats p.latest
        ∷ "\n      "
        ∷ []))
