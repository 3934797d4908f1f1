-- ===== src/Dashboard/Safe.antt =====
-- The markup of the cockpit page (buzz-hermes-bridge/src/dashboard/dashboard.ts): its P&L section, and
-- the whole page.
use assurance_toto.Dashboard.Shape.{
  Same-timeline, Same-approvals, Same-conformite, Same-freshness, Banner, ArePlain, banner_of,
  Same-ks, Same-card, Same-pipeline, Same-sinistres,
}
use assurance_toto.Dashboard.Money.{
  signed, cls, bar_of, trend_of, pnl_section, last_week_text, ratio_text, trend_series, ratio_row,
  last_week, trend_bars, max_abs,
}
use assurance_toto.Dashboard.{
  Formats, DashboardSnapshot, RatioSinistraliteRow, PnlSummary, PnlWeeklyRow,
}
use assurance_toto.Dashboard.Page.{notice_text, is_noticed, DashboardParams, render_dashboard}
use assurance_toto.Prelude.{
  ℕ, String, Bool, Option, none, some, List, [], ◌∷◌, ◌≡◌, refl, length, arith, ℤ, is_some,
  Bool-cases, ltb_ℤ, pos, ap, inl, inr,
}
use assurance_toto.Dashboard.Markup.{
  ◌&◌, markup, Same, same, Same-plain, IsPlain, Same-template, Same-esc, Same-rows, markup-append,
  Same-decimal, done, Same-unless_empty,
}
use mathlib.Core.Option.{some-injective}

cls-IsPlain : (n : ℤ) → IsPlain (cls n)
unfolding cls markup
cls-IsPlain n = elim (Bool-cases (ltb_ℤ (pos 0) n)) [
  | inl p ↦ rw p refl
  | inr p ↦ elim (Bool-cases (ltb_ℤ n (pos 0))) [ inl q ↦ rw (p, q) refl | inr q ↦ rw (p, q) refl ]
]

Same-cls : (m n : ℤ) → Same (cls m) (cls n)
Same-cls m n = Same-plain (cls-IsPlain m) (cls-IsPlain n)

signed-IsPlain : (n : ℤ) → IsPlain (signed n)
unfolding signed markup
signed-IsPlain n = elim (Bool-cases (ltb_ℤ (pos 0) n)) [
  | inl p ↦ rw p refl
  | inr p ↦ elim (Bool-cases (ltb_ℤ n (pos 0))) [ inl q ↦ rw (p, q) refl | inr q ↦ rw (p, q) refl ]
]

Same-signed : (m n : ℤ) → Same (signed m) (signed n)
Same-signed m n = Same-plain (signed-IsPlain m) (signed-IsPlain n)

Same-notice :
    (m n : Option String) → is_noticed m ≡ is_noticed n → Same (notice_text m) (notice_text n)
unfolding notice_text
Same-notice none none h = same
Same-notice none (some String.[]) h = same
Same-notice none (some (String.◌∷◌ c s)) h = absurd (cc)
Same-notice (some String.[]) none h = same
Same-notice (some String.[]) (some String.[]) h = same
Same-notice (some String.[]) (some (String.◌∷◌ c s)) h = absurd (cc)
Same-notice (some (String.◌∷◌ c s)) none h = absurd (cc)
Same-notice (some (String.◌∷◌ c s)) (some String.[]) h = absurd (cc)
Same-notice (some (String.◌∷◌ c s)) (some (String.◌∷◌ d t)) h =
    Same-template (same & Same-esc _ _ & same & done)

-- What the markup of a page depends on: how many rows each table has, and a few tests.
pub record Shape : Type 0 where
  pub weeks : ℕ
  pub has_last_week : Bool
  pub ratios : ℕ
  pub statuses : ℕ
  pub approvals : ℕ
  pub macro : ℕ
  pub tracked : Bool
  pub banner : Banner
  pub events : ℕ

module _ {R : Type 0} (formats : Formats R) where
  abbrev pub shape : DashboardSnapshot R → Shape
  shape s = record {
    weeks = length (trend_series formats s.pnl_hebdo);
    has_last_week = is_some (last_week formats s.pnl_hebdo);
    ratios = length s.ratios;
    statuses = length s.sinistres.rows;
    approvals = length s.approbations_en_attente;
    macro = length s.macro;
    tracked = s.anonymisation.tracked;
    banner = banner_of s.kill_switch;
    events = length s.timeline;
  }

  -- A snapshot that is not there has a shape of its own.
  abbrev pub shape_of : Option (DashboardSnapshot R) → Option Shape
  shape_of none = none
  shape_of (some s) = some (shape s)

  Same-bar : (m n : ℕ) (v w : String × ℤ) → Same (bar_of formats m v) (bar_of formats n w)
  unfolding bar_of
  Same-bar m n (a, v) (b, w) = Same-template (
      same
      & Same-esc _ _
      & same
      & Same-esc _ _
      & same
      & Same-signed _ _
      & same
      & Same-decimal _ _
      & same
      & Same-esc _ _
      & same
      & done)

  Same-trend :
      (xs ys : List (String × ℤ))
      → length xs ≡ length ys
      → Same (trend_of formats xs) (trend_of formats ys)
  Same-trend [] [] n = same
  Same-trend [] (y ∷ ys) n = absurd (omega (arith, n))
  Same-trend (x ∷ xs) [] n = absurd (omega (arith, n))
  Same-trend (x ∷ xs) (y ∷ ys) n = Same-template (
      same
      & Same-rows (Same-bar (max_abs (x ∷ xs)) (max_abs (y ∷ ys))) (x ∷ xs) (y ∷ ys) n
      & same
      & done)

  Same-last_week :
      (m n : Option ℤ)
      → is_some m ≡ is_some n
      → Same (last_week_text formats m) (last_week_text formats n)
  Same-last_week none none h = same
  Same-last_week none (some n) h = absurd (cc)
  Same-last_week (some m) none h = absurd (cc)
  Same-last_week (some m) (some n) h =
      Same-template (same & Same-cls _ _ & same & Same-esc _ _ & same & done)

  module _ (plain : ArePlain formats) where
    ratio_text-IsPlain : (m : Option R) → IsPlain (ratio_text formats m)
    unfolding markup
    ratio_text-IsPlain none = refl
    ratio_text-IsPlain (some r) = rw (markup-append (formats.percent r) " %", plain.percent r) refl

    Same-ratio_text : (m n : Option R) → Same (ratio_text formats m) (ratio_text formats n)
    Same-ratio_text m n = Same-plain (ratio_text-IsPlain m) (ratio_text-IsPlain n)

    Same-ratio_row :
        (a b : RatioSinistraliteRow R) → Same (ratio_row formats a) (ratio_row formats b)
    unfolding ratio_row
    Same-ratio_row a b =
        Same-template (same & Same-esc _ _ & same & Same-ratio_text _ _ & same & done)

    Same-pnl :
        (p q : PnlSummary) (h k : List PnlWeeklyRow) (xs ys : List (RatioSinistraliteRow R))
        → length (trend_series formats h) ≡ length (trend_series formats k)
        → is_some (last_week formats h) ≡ is_some (last_week formats k)
        → length xs ≡ length ys
        → Same (pnl_section formats p h xs) (pnl_section formats q k ys)
    unfolding pnl_section trend_bars
    Same-pnl p q h k xs ys w l n = Same-card _ _ _ (
        Same-template (
          same
          & Same-cls _ _
          & same
          & Same-esc _ _
          & same
          & Same-decimal _ _
          & same
          & Same-last_week _ _ l
          & same
          & Same-unless_empty _ _ _ _ _ n
              (Same-template (same & Same-rows Same-ratio_row _ _ n & same & done))
          & same
          & Same-trend _ _ w
          & same
          & Same-freshness formats _ _
          & same
          & done))

    Same-page :
        (p q : DashboardParams) (s t : DashboardSnapshot R)
        → is_noticed p.notice ≡ is_noticed q.notice
        → shape s ≡ shape t
        → Same (render_dashboard formats p (some s)) (render_dashboard formats q (some t))
    unfolding render_dashboard
    Same-page p q s t m e = Same-template (
        same
        & same
        & same
        & Same-esc _ _
        & same
        & Same-esc _ _
        & same
        & Same-notice _ _ m
        & same
        & Same-ks formats _ _ _ _ (ap (λ (x : Shape). x.banner) e)
        & same
        & Same-pnl _ _ _ _ _ _ (ap (λ (x : Shape). x.weeks) e)
            (ap (λ (x : Shape). x.has_last_week) e) (ap (λ (x : Shape). x.ratios) e)
        & same
        & Same-pipeline formats _ _
        & same
        & Same-sinistres formats _ _ (ap (λ (x : Shape). x.statuses) e)
        & same
        & Same-conformite formats plain _ _ _ _ (ap (λ (x : Shape). x.tracked) e)
            (ap (λ (x : Shape). x.macro) e)
        & same
        & Same-approvals formats _ _ _ _ _ _ (ap (λ (x : Shape). x.approvals) e)
        & same
        & Same-timeline formats _ _ _ _ (ap (λ (x : Shape). x.events) e)
        & same
        & done)

    Same-no_page :
        (p q : DashboardParams)
        → is_noticed p.notice ≡ is_noticed q.notice
        → Same (render_dashboard formats p none) (render_dashboard formats q none)
    unfolding render_dashboard
    Same-no_page p q m = Same-template (
        same
        & same
        & same
        & Same-esc _ _
        & same
        & Same-esc _ _
        & same
        & Same-notice _ _ m
        & same
        & same
        & same
        & same
        & same
        & same
        & same
        & same
        & same
        & same
        & same
        & same
        & same
        & same
        & same
        & done)

    -- No text of the database, of the request or of the configuration can open or close a tag or an
    -- attribute of the cockpit: two pages have the same characters `<`, `>` and quotes, in the same order,
    -- as soon as both or neither show a notice and their snapshots have one shape, if what `toFixed` and
    -- `String` print of numbers has none of these characters.
    pub render_dashboard-markup :
        (p q : DashboardParams) (s t : Option (DashboardSnapshot R))
        → is_noticed p.notice ≡ is_noticed q.notice
        → shape_of s ≡ shape_of t
        → markup (render_dashboard formats p s) ≡ markup (render_dashboard formats q t)
    render_dashboard-markup p q none none m e = (Same-no_page p q m).at
    render_dashboard-markup p q none (some t) m e = absurd (cc)
    render_dashboard-markup p q (some s) none m e = absurd (cc)
    render_dashboard-markup p q (some s) (some t) m e =
        (Same-page p q s t m (some-injective _ _ e)).at
