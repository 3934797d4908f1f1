-- ===== src/Tests/Pages.antt =====
-- The cockpit page of buzz-hermes-bridge/src/dashboard/dashboard.ts for a small company, and for one
-- whose texts are hostile.
use assurance_toto.Prelude.{ℕ, String, true, false, none, some, [], ◌∷◌, pos, ◌≡◌, refl}
use assurance_toto.Rows.{ApprobationRow, en_attente}
use assurance_toto.Dashboard.{Formats, DashboardSnapshot, esc, replace_all}
use assurance_toto.Dashboard.Markup.{markup}
use assurance_toto.Dashboard.Money.{trend_series, last_week}
use assurance_toto.Dashboard.Page.{DashboardParams, render_dashboard}
use assurance_toto.Dashboard.Shape.{ArePlain}
use assurance_toto.Dashboard.Safe.{render_dashboard-markup}
use assurance_toto.Tests.Fixtures.{ceo_key, noon}

abbrev plain_formats : Formats ℕ
plain_formats = record {
  fmt_eur = λ n. "1 EUR";
  fmt_amount = λ a. "1 EUR";
  local_date = λ iso. some iso;
  percent = λ r. "7.5";
  share = λ a b. "50.0";
  number_text = λ r. "42";
  comes_before = λ a b. false;
}

plain_formats-ArePlain : ArePlain plain_formats
unfolding markup
plain_formats-ArePlain = record { percent = λ r. refl; number_text = λ r. refl }

abbrev asked : String → ApprobationRow
asked reason = record {
  id = "1";
  correlation_id = reason;
  type_name = "claim.settlement.approve";
  claim_id = none;
  montant_eur = none;
  statut = en_attente;
  requested_by = some reason;
  decided_by = none;
  reason = some reason;
  decided_at = none;
  created_at = noon;
  execution = none;
}

abbrev snapshot : String → DashboardSnapshot ℕ
snapshot text = record {
  pnl = record { resultat_cumule = pos 100; nb_ecritures = 3; latest = some text };
  pnl_hebdo = [];
  ratios = record { departement = text; ratio = some 7 } ∷ [];
  pipeline = record { leads = none; contrats = 1; clients = 2; latest = none };
  sinistres = record { rows = record { statut = text; nb = 2; montant = 100 } ∷ []; latest = none };
  approbations_en_attente = asked text ∷ [];
  macro =
      record {
        indicateur = text;
        valeur = some 42;
        periode = none;
        source = some text;
        created_at = noon;
      }
      ∷ [];
  anonymisation = record { tracked = true; count = 5 };
  kill_switch = some (record { id = 1; actif = true; active_par = some text; active_le = none });
  timeline =
      record { created_at = noon; source = text; action = text; correlation_id = some text } ∷ [];
}

abbrev cockpit : String → DashboardParams
cockpit text = record {
  ceo_pubkey = ceo_key;
  highlight = some text;
  notice = some text;
  generated_at = noon;
  buzz_workspace_url = some text;
}

esc_test : esc "<a href='x'>&" ≡ "&lt;a href=&#39;x&#39;&gt;&amp;"
unfolding esc replace_all
esc_test = refl

render_dashboard-markup_example :
    markup (render_dashboard plain_formats (cockpit "auto") (some (snapshot "auto")))
    ≡ markup (
        render_dashboard plain_formats
          (cockpit "<script>x</script>")
          (some (snapshot "\"><img src='x'>")))
unfolding trend_series last_week
render_dashboard-markup_example =
    render_dashboard-markup plain_formats plain_formats-ArePlain (cockpit "auto")
      (cockpit "<script>x</script>") (some (snapshot "auto")) (some (snapshot "\"><img src='x'>"))
      refl refl
