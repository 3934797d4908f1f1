-- ===== src/Dashboard/Shape.antt =====
-- The markup of each section of the cockpit but the P&L, and what it depends on
-- (buzz-hermes-bridge/src/dashboard/dashboard.ts).
use assurance_toto.Dashboard.{
  Formats, card, SinistreStatsRow, or_blank, freshness, SinistresStats, AuditTimelineRow,
  AnonymisationStats, MacroIndicateurRow, PipelineStats,
}
use assurance_toto.Dashboard.Sections.{
  sort_stats, insert_stats, approval_row, stats_row, anonymisation_text, macro_row, holder_text,
  pipeline_section, sinistres_section, timeline_row, value_text, conformite_section,
  timeline_section, banner, ks_section, approvals_section, amount_text, statut_rank,
}
use assurance_toto.Prelude.{
  ◌+◌, String, Bool, true, false, Option, none, some, List, [], ◌∷◌, ◌≡◌, refl, sym, ◌∙◌, length,
  arith, if◌then◌else◌, Bool-cases, inl, inr, ◌≢◌, leb,
}
use assurance_toto.Dashboard.Markup.{
  ◌&◌, markup, Same, Same-if, IsPlain, Same-template, same, Same-or_blank, Same-esc, Same-plain,
  Same-decimal, Same-unless_empty, done, esc-IsPlain, Same-rows,
}
use assurance_toto.Rows.{KillSwitchRow, Amount, ApprobationRow}

-- What `toFixed` and `String` print of a number has no markup.
pub record ArePlain {R : Type 0} (formats : Formats R) : Type 0 where
  pub percent : (r : R) → IsPlain (formats.percent r)
  pub number_text : (r : R) → IsPlain (formats.number_text r)

hl-IsPlain : IsPlain "hl"
unfolding markup
hl-IsPlain = refl

Same-highlight : (b c : Bool) → Same (or_blank b "hl") (or_blank c "hl")
Same-highlight b c = Same-or_blank b c "hl" hl-IsPlain

Same-good : (b c : Bool) → Same (if b then "bad" else "good") (if c then "bad" else "good")
unfolding markup
Same-good b c = Same-if b c _ _ refl refl

Same-switch_value :
    (b c : Bool) → Same (if b then "false" else "true") (if c then "false" else "true")
unfolding markup
Same-switch_value b c = Same-if b c _ _ refl refl

Same-switch_text :
    (b c : Bool)
    → Same
        (if b then "Disable kill-switch" else "ENABLE KILL-SWITCH")
        (if c then "Disable kill-switch" else "ENABLE KILL-SWITCH")
unfolding markup
Same-switch_text b c = Same-if b c _ _ refl refl

pub Same-card : (t s u : String) → Same s u → Same (card t s) (card t u)
unfolding card
Same-card t s u h = Same-template (same & same & same & h & same & done)

length-insert_stats :
    (r : SinistreStatsRow) (xs : List SinistreStatsRow) → length (insert_stats r xs) ≡ length xs + 1
unfolding insert_stats
length-insert_stats r [] = refl
length-insert_stats r (x ∷ xs) =
    elim (Bool-cases (leb (statut_rank r.statut) (statut_rank x.statut))) [
      | inl p ↦ rw p (omega arith)
      | inr p ↦ rw p (omega (arith, length-insert_stats r xs))
    ]

length-sort_stats : (xs : List SinistreStatsRow) → length (sort_stats xs) ≡ length xs
unfolding sort_stats
length-sort_stats [] = refl
length-sort_stats (x ∷ xs) =
    let n = length-insert_stats x (sort_stats xs) in
    let m = length-sort_stats xs in omega (arith, n, m)

-- What the banner of the kill-switch tells apart: off, on, and on with a holder.
pub data Banner : Type 0 where
  off on held : Banner

abbrev pub holder_of : Option String → Banner
holder_of none = on
holder_of (some String.[]) = on
holder_of (some by) = held

abbrev pub banner_of : Option KillSwitchRow → Banner
banner_of none = off
banner_of (some ks) = if ks.actif then holder_of ks.active_par else off

holder_of-on : (by : Option String) → holder_of by ≢ off
holder_of-on none e = absurd (cc)
holder_of-on (some String.[]) e = absurd (cc)
holder_of-on (some (String.◌∷◌ c s)) e = absurd (cc)

on_holder : (k : KillSwitchRow) → k.actif ≡ true → banner_of (some k) ≡ holder_of k.active_par
on_holder k p = rw p refl

on_of :
    (k : KillSwitchRow) → k.actif ≡ true → banner_of (some k) ≡ off → holder_of k.active_par ≡ off
on_of k p h = sym (on_holder k p) ∙ h

off_of : (k : KillSwitchRow) → k.actif ≡ false → banner_of (some k) ≡ off
off_of k p = rw p refl

held_of :
    (k l : KillSwitchRow)
    → k.actif ≡ true
    → l.actif ≡ true
    → banner_of (some k) ≡ banner_of (some l)
    → holder_of k.active_par ≡ holder_of l.active_par
held_of k l p q h = sym (on_holder k p) ∙ h ∙ on_holder l q

module _ {R : Type 0} (formats : Formats R) where
  pub Same-freshness : (l m : Option String) → Same (freshness formats l) (freshness formats m)
  unfolding freshness
  Same-freshness l m = Same-template (same & Same-esc _ _ & same & done)

  Same-amount : (m n : Option Amount) → Same (amount_text formats m) (amount_text formats n)
  unfolding markup
  Same-amount none none = same
  Same-amount none (some b) = Same-plain refl (esc-IsPlain _)
  Same-amount (some a) none = Same-plain (esc-IsPlain _) refl
  Same-amount (some a) (some b) = Same-esc _ _

  Same-approval_row :
      (hl ceo kl deo : String) (a b : ApprobationRow)
      → Same (approval_row formats hl ceo a) (approval_row formats kl deo b)
  unfolding approval_row
  Same-approval_row hl ceo kl deo a b = Same-template (
      same
      & Same-highlight _ _
      & same
      & Same-esc _ _
      & same
      & Same-esc _ _
      & same
      & Same-esc _ _
      & same
      & Same-amount _ _
      & same
      & Same-esc _ _
      & same
      & Same-esc _ _
      & same
      & Same-esc _ _
      & same
      & done)

  pub Same-approvals :
      (hl ceo kl deo : String) (xs ys : List ApprobationRow)
      → length xs ≡ length ys
      → Same (approvals_section formats hl ceo xs) (approvals_section formats kl deo ys)
  unfolding approvals_section
  Same-approvals hl ceo kl deo xs ys n = Same-card _ _ _ (
      Same-template (
        same
        & Same-good _ _
        & same
        & Same-decimal _ _
        & same
        & Same-unless_empty _ _ _ _ _ n (
            Same-template
              (same & Same-rows (Same-approval_row hl ceo kl deo) xs ys n & same & done))
        & same
        & Same-freshness _ _
        & same
        & done))

  Same-timeline_row :
      (hl kl : String) (s t : AuditTimelineRow)
      → Same (timeline_row formats hl s) (timeline_row formats kl t)
  unfolding timeline_row
  Same-timeline_row hl kl s t = Same-template (
      same
      & Same-highlight _ _
      & same
      & Same-esc _ _
      & same
      & Same-esc _ _
      & same
      & Same-esc _ _
      & same
      & Same-esc _ _
      & same
      & done)

  pub Same-timeline :
      (hl kl : String) (xs ys : List AuditTimelineRow)
      → length xs ≡ length ys
      → Same (timeline_section formats hl xs) (timeline_section formats kl ys)
  unfolding timeline_section
  Same-timeline hl kl xs ys n = Same-card _ _ _ (
      Same-template (
        same
        & Same-unless_empty _ _ _ _ _ n
            (Same-template (same & Same-rows (Same-timeline_row hl kl) xs ys n & same & done))
        & same
        & done))

  Same-held :
      (by by' at at' : Option String)
      → holder_of by ≡ holder_of by'
      → Same (holder_text formats by at) (holder_text formats by' at')
  Same-held none none at at' h = same
  Same-held none (some String.[]) at at' h = same
  Same-held none (some (String.◌∷◌ c s)) at at' h = absurd (cc)
  Same-held (some String.[]) none at at' h = same
  Same-held (some String.[]) (some String.[]) at at' h = same
  Same-held (some String.[]) (some (String.◌∷◌ c s)) at at' h = absurd (cc)
  Same-held (some (String.◌∷◌ c s)) none at at' h = absurd (cc)
  Same-held (some (String.◌∷◌ c s)) (some String.[]) at at' h = absurd (cc)
  Same-held (some (String.◌∷◌ c s)) (some (String.◌∷◌ d t)) at at' h =
      Same-template (same & Same-esc _ _ & same & Same-esc _ _ & same & done)

  Same-banner :
      (k l : Option KillSwitchRow)
      → banner_of k ≡ banner_of l
      → Same (banner formats k) (banner formats l)
  unfolding banner
  Same-banner none none h = same
  Same-banner none (some l) h = elim (Bool-cases l.actif) [
    | inl q ↦ absurd (holder_of-on l.active_par (on_of l q (sym h)))
    | inr q ↦ rw q same
  ]
  Same-banner (some k) none h = elim (Bool-cases k.actif) [
    | inl p ↦ absurd (holder_of-on k.active_par (on_of k p h))
    | inr p ↦ rw p same
  ]
  Same-banner (some k) (some l) h = elim (Bool-cases k.actif) [
    | inl p ↦ elim (Bool-cases l.actif) [
      | inl q ↦
          rw (p, q) (Same-template (same & Same-held _ _ _ _ (held_of k l p q h) & same & done))
      | inr q ↦ absurd (holder_of-on k.active_par (on_of k p (h ∙ off_of l q)))
    ]
    | inr p ↦ elim (Bool-cases l.actif) [
      | inl q ↦ absurd (holder_of-on l.active_par (on_of l q (sym h ∙ off_of k p)))
      | inr q ↦ rw (p, q) same
    ]
  ]

  pub Same-ks :
      (ceo deo : String) (k l : Option KillSwitchRow)
      → banner_of k ≡ banner_of l
      → Same (ks_section formats ceo k) (ks_section formats deo l)
  unfolding ks_section
  Same-ks ceo deo k l h = Same-card _ _ _ (
      Same-template (
        same
        & Same-banner k l h
        & same
        & Same-esc _ _
        & same
        & Same-switch_value _ _
        & same
        & Same-switch_text _ _
        & same
        & done))

  Same-anonymisation :
      (a b : AnonymisationStats)
      → a.tracked ≡ b.tracked
      → Same (anonymisation_text formats a) (anonymisation_text formats b)
  unfolding anonymisation_text
  Same-anonymisation a b h = elim (Bool-cases a.tracked) [
    | inl p ↦ rw (p, sym h ∙ p) (Same-template (same & Same-decimal _ _ & same & done))
    | inr p ↦ rw (p, sym h ∙ p) same
  ]

  Same-stats_row : (a b : SinistreStatsRow) → Same (stats_row formats a) (stats_row formats b)
  unfolding stats_row
  Same-stats_row a b =
      Same-template
        (same & Same-esc _ _ & same & Same-decimal _ _ & same & Same-esc _ _ & same & done)

  pub Same-sinistres :
      (s t : SinistresStats)
      → length s.rows ≡ length t.rows
      → Same (sinistres_section formats s) (sinistres_section formats t)
  unfolding sinistres_section
  Same-sinistres s t n =
      let sorted = length-sort_stats s.rows ∙ n ∙ sym (length-sort_stats t.rows) in
      Same-card _ _ _ (
        Same-template (
          same
          & Same-esc _ _
          & same
          & Same-esc _ _
          & same
          & Same-unless_empty _ _ _ _ _ n
              (Same-template (same & Same-rows Same-stats_row _ _ sorted & same & done))
          & same
          & Same-freshness _ _
          & same
          & done))

  pub Same-pipeline :
      (p q : PipelineStats) → Same (pipeline_section formats p) (pipeline_section formats q)
  unfolding pipeline_section
  Same-pipeline p q = Same-card _ _ _ (
      Same-template (
        same
        & Same-decimal _ _
        & same
        & Same-decimal _ _
        & same
        & Same-esc _ _
        & same
        & Same-freshness _ _
        & same
        & done))

  module _ (plain : ArePlain formats) where
    Same-value : (m n : Option R) → Same (value_text formats m) (value_text formats n)
    unfolding markup
    Same-value none none = same
    Same-value none (some r) = Same-plain refl (plain.number_text r)
    Same-value (some r) none = Same-plain (plain.number_text r) refl
    Same-value (some r) (some q) = Same-plain (plain.number_text r) (plain.number_text q)

    Same-macro_row : (m n : MacroIndicateurRow R) → Same (macro_row formats m) (macro_row formats n)
    unfolding macro_row
    Same-macro_row m n = Same-template (
        same
        & Same-esc _ _
        & same
        & Same-value _ _
        & same
        & Same-esc _ _
        & same
        & Same-esc _ _
        & same
        & done)

    pub Same-conformite :
        (a b : AnonymisationStats) (xs ys : List (MacroIndicateurRow R))
        → a.tracked ≡ b.tracked
        → length xs ≡ length ys
        → Same (conformite_section formats a xs) (conformite_section formats b ys)
    unfolding conformite_section
    Same-conformite a b xs ys h n = Same-card _ _ _ (
        Same-template (
          same
          & Same-anonymisation a b h
          & same
          & Same-unless_empty _ _ _ _ _ n
              (Same-template (same & Same-rows Same-macro_row xs ys n & same & done))
          & same
          & Same-freshness _ _
          & same
          & done))
