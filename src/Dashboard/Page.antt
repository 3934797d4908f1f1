-- ===== src/Dashboard/Page.antt =====
-- `renderDashboard` of buzz-hermes-bridge/src/dashboard/dashboard.ts: the whole page.
use assurance_toto.Prelude.{
  String, Bool, true, false, Option, none, some, [], ◌∷◌, or_else, template,
}
use assurance_toto.Dashboard.{Formats, DashboardSnapshot, esc, fmt_date, unavailable}
use assurance_toto.Dashboard.Sections.{
  approvals_section, timeline_section, ks_section, conformite_section, sinistres_section,
  pipeline_section,
}
use assurance_toto.Dashboard.Money.{pnl_section}

-- `CSS`
abbrev css : String
css = template (
    "\n"
    ∷ ":root{--bg:#0e1116;--panel:#161b23;--panel2:#1c232e;--border:#2a3342;--text:#dbe2ec;--muted:#8b96a6;\n"
    ∷ "--good:#37c978;--bad:#e5534b;--accent:#d4a94e;--chip:#212a37}\n"
    ∷ "*{box-sizing:border-box;margin:0;padding:0}\n"
    ∷ "body{background:var(--bg);color:var(--text);font:14px/1.5 system-ui,-apple-system,\"Segoe UI\",sans-serif;padding:24px}\n"
    ∷ ".mono,code{font-family:ui-monospace,SFMono-Regular,Consolas,monospace;font-size:12px}\n"
    ∷ "header.hero{margin-bottom:18px;padding-bottom:14px;border-bottom:1px solid var(--border)}\n"
    ∷ "h1{font-size:22px;letter-spacing:.4px}\n" ∷ ".sub{color:var(--muted);margin-top:4px}\n"
    ∷ ".badge-demo{display:inline-block;background:var(--chip);border:1px solid var(--border);border-radius:999px;\n"
    ∷ "padding:2px 12px;font-size:12px;color:var(--muted);margin-top:8px}\n"
    ∷ ".notice{background:#123520;border:1px solid var(--good);color:var(--good);border-radius:8px;padding:10px 14px;margin:12px 0}\n"
    ∷ ".grid{display:grid;gap:14px;grid-template-columns:repeat(auto-fit,minmax(340px,1fr))}\n"
    ∷ ".wide{grid-column:1/-1}\n"
    ∷ ".card{background:var(--panel);border:1px solid var(--border);border-radius:10px;padding:14px 16px}\n"
    ∷ ".card-head{display:flex;justify-content:space-between;align-items:baseline;gap:8px;margin-bottom:10px}\n"
    ∷ "h2{font-size:13px;text-transform:uppercase;letter-spacing:.08em;color:var(--muted);font-weight:600}\n"
    ∷ ".kpis{display:flex;gap:22px;flex-wrap:wrap}\n" ∷ ".kpi .v{font-size:22px;font-weight:700}\n"
    ∷ ".kpi .l{color:var(--muted);font-size:12px}\n"
    ∷ ".good{color:var(--good)} .bad{color:var(--bad)} .muted{color:var(--muted)}\n"
    ∷ ".good{color:var(--good)} .bad{color:var(--bad)}\n"
    ∷ ".freshness{color:var(--muted);font-size:11px;font-style:italic}\n"
    ∷ "table{width:100%;border-collapse:collapse;font-size:13px}\n"
    ∷ "th{text-align:left;color:var(--muted);font-weight:600;font-size:11px;text-transform:uppercase;letter-spacing:.05em;\n"
    ∷ "border-bottom:1px solid var(--border);padding:4px 6px}\n"
    ∷ "td{padding:5px 6px;border-bottom:1px solid #202834}\n"
    ∷ "tr.hl{background:#2b2410;outline:1px solid var(--accent)}\n"
    ∷ ".pill{display:inline-block;border:1px solid var(--border);background:var(--chip);border-radius:6px;padding:0 8px;font-size:12px}\n"
    ∷ ".trend{display:flex;gap:6px;align-items:flex-end;height:120px;margin-top:8px}\n"
    ∷ ".bar-col{display:flex;flex-direction:column;align-items:center;flex:1;height:100%}\n"
    ∷ ".bar-wrap{flex:1;width:100%;display:flex;align-items:flex-end;background:var(--panel2);border-radius:4px 4px 0 0;overflow:hidden}\n"
    ∷ ".bar{width:100%} .bar.pos{background:var(--good)} .bar.neg{background:var(--bad)} .bar.zero{background:var(--muted)}\n"
    ∷ ".bar-label{font-size:10px;color:var(--muted);margin-top:4px}\n"
    ∷ ".ks-banner{border-radius:8px;padding:10px 14px;font-weight:600;margin-bottom:10px}\n"
    ∷ ".ks-ok{background:#123520;border:1px solid var(--good);color:var(--good)}\n"
    ∷ ".ks-on{background:#3d1715;border:1px solid var(--bad);color:#ff9d97}\n"
    ∷ "form.inline{display:flex;gap:8px;align-items:center;margin-top:8px;flex-wrap:wrap}\n"
    ∷ "input[type=text]{background:var(--panel2);border:1px solid var(--border);color:var(--text);border-radius:6px;padding:5px 8px;font:inherit;font-size:12px;min-width:200px}\n"
    ∷ "button{background:var(--accent);color:#14100a;border:0;border-radius:6px;padding:6px 14px;font-weight:700;cursor:pointer}\n"
    ∷ "button.refuse{background:var(--panel2);color:var(--bad);border:1px solid var(--bad)}\n"
    ∷ ".unavailable{border:1px dashed var(--bad);border-radius:8px;padding:12px;color:var(--muted)}\n"
    ∷ ".unavailable strong{color:var(--bad)}\n" ∷ ".count-big{font-size:34px;font-weight:800}\n"
    ∷ ".scroll{max-height:280px;overflow:auto}\n"
    ∷ "footer{color:var(--muted);font-size:12px;margin-top:18px;border-top:1px solid var(--border);padding-top:10px}\n"
    ∷ [])

-- `DashboardParams`; the time of the page is a value of the request.
pub record DashboardParams : Type 0 where
  pub ceo_pubkey : String
  pub highlight : Option String
  pub notice : Option String
  pub generated_at : String
  pub buzz_workspace_url : Option String

abbrev pub section : {A : Type 0} → Option A → (A → String) → String
section none render = unavailable
section (some s) render = render s

-- `p.notice !== undefined && p.notice !== ''`
abbrev pub is_noticed : Option String → Bool
is_noticed none = false
is_noticed (some String.[]) = false
is_noticed (some text) = true

unfoldable pub notice_text : Option String → String
notice_text none = ""
notice_text (some String.[]) = ""
notice_text (some text) = template ("<div class=\"notice\">" ∷ esc text ∷ "</div>" ∷ [])

module _ {R : Type 0} (formats : Formats R) where
  -- A snapshot that cannot be read is `none`.
  unfoldable pub render_dashboard : DashboardParams → Option (DashboardSnapshot R) → String
  render_dashboard p snapshot = template (
      "<!doctype html>\n<html lang=\"en\">\n<head>\n<meta charset=\"utf-8\">\n<meta name=\"viewport\" content=\"width=device-width, initial-scale=1\">\n<meta http-equiv=\"refresh\" content=\"30\">\n<title>Assurance Toto — Cockpit CEO</title>\n<style>"
      ∷ css
      ∷ "</style>\n</head>\n<body>\n<header class=\"hero\">\n  <h1>Assurance Toto — Cockpit CEO</h1>\n  <p class=\"sub\">DEMO environment · 100% synthetic data · generated on "
      ∷ esc (fmt_date formats (some p.generated_at))
      ∷ " (auto-refresh 30 s)</p>\n  <span class=\"badge-demo\">DEMO environment — synthetic data only</span>\n  <p style=\"margin-top:10px\">\n    <a href=\""
      ∷ esc (or_else p.buzz_workspace_url "http://localhost:3002/repos")
      ∷ "\" target=\"_blank\" rel=\"noopener\" style=\"color:var(--accent);text-decoration:none;border:1px solid var(--accent);border-radius:6px;padding:4px 12px;font-size:12px\">\n      Open Buzz workspace (Nostr) ↗\n    </a>\n  </p>\n</header>\n"
      ∷ notice_text p.notice
      ∷ "\n<div class=\"grid\">\n  <div class=\"wide\">"
      ∷ section snapshot (λ s. ks_section formats p.ceo_pubkey s.kill_switch)
      ∷ "</div>\n  "
      ∷ section snapshot (λ s. pnl_section formats s.pnl s.pnl_hebdo s.ratios)
      ∷ "\n  "
      ∷ section snapshot (λ s. pipeline_section formats s.pipeline)
      ∷ "\n  "
      ∷ section snapshot (λ s. sinistres_section formats s.sinistres)
      ∷ "\n  "
      ∷ section snapshot (λ s. conformite_section formats s.anonymisation s.macro)
      ∷ "\n  <div class=\"wide\">"
      ∷ section snapshot (λ s.
        approvals_section formats (or_else p.highlight "") p.ceo_pubkey s.approbations_en_attente)
      ∷ "</div>\n  <div class=\"wide\">"
      ∷ section snapshot (λ s. timeline_section formats (or_else p.highlight "") s.timeline)
      ∷ "</div>\n</div>\n<footer>\n  Read-only on Postgres (views <code>v_pnl_hebdo</code>, <code>v_ratio_sinistralite</code>, tables <code>pnl_ledger</code>, <code>sinistres</code>, <code>contrats</code>, <code>clients</code>, <code>approbations</code>, <code>audit_log</code>, <code>macro_indicateurs</code>, <code>kill_switch</code>).\n  No writes from this page; decisions go through the existing endpoints, protected by the CEO whitelist.\n</footer>\n</body>\n</html>"
      ∷ [])
