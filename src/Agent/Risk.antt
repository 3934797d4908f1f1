-- ===== src/Agent/Risk.antt =====
-- `scoreDeRisque` and `qualificationLead` of agents/_runtime/src/tools/tools.ts. Numbers of the input
-- are in hundredths; a lead's score is in hundredths too.
use assurance_toto.Prelude.{
  ℕ, ◌+◌, ◌-◌, ◌≤◌, min, String, true, false, ◌&&◌, Option, ◌≡◌, ◌⊎◌, arith, or_else, ltb, ℤ, pos,
  ltb_ℤ, leb_ℤ, ◌==◌, if◌then◌else◌, Bool-cases, inl, inr,
}

pub record DonneesRisque : Type 0 where
  pub age_conducteur : Option ℤ
  pub bonus_malus : Option ℤ
  pub type_vehicule : String
  pub zone : String
  pub formule : String
  pub age_vehicule : Option ℤ
  pub source : String

abbrev pub age : DonneesRisque → ℤ
age dr = or_else dr.age_conducteur (pos 4_000)

abbrev pub bonus_malus : DonneesRisque → ℤ
bonus_malus dr = or_else dr.bonus_malus (pos 100)

unfoldable pub age_points : ℤ → ℕ
age_points a = if ltb_ℤ a (pos 2_500) then 25 else if ltb_ℤ (pos 6_500) a then 10 else 0

-- The score after the bonus-malus, which is at least 30 before it.
unfoldable pub bonus_points : ℤ → ℕ → ℕ
bonus_points bm score =
    if ltb_ℤ (pos 250) bm
    then score + 30
    else if ltb_ℤ (pos 125) bm
    then score + 15
    else if ltb_ℤ bm (pos 90)
    then score - 10
    else score

unfoldable pub vehicle_points : String → ℕ
vehicle_points t = if t == "sportive" then 20 else if t == "suv" then 8 else 0

unfoldable pub old_points : Option ℤ → ℕ
old_points a = if ltb_ℤ (pos 1_000) (or_else a (pos 0)) then 7 else 0

unfoldable pub zone_points : String → ℕ
zone_points z = if z == "paris" then 10 else 0

-- `scoreDeRisque`, its score
unfoldable pub score_de_risque : DonneesRisque → ℕ
score_de_risque dr =
    min
      (bonus_points (bonus_malus dr) (30 + age_points (age dr))
        + vehicle_points dr.type_vehicule
        + old_points dr.age_vehicule
        + zone_points dr.zone)
      100

age_points-bounds :
    (a : ℤ) → (age_points a ≤ 25) × ((ltb_ℤ a (pos 2_500) ≡ false) → age_points a ≤ 10)
unfolding age_points
age_points-bounds a = ground arith

bonus_points-bounds :
    (bm : ℤ) (s : ℕ)
    → 30 ≤ s
    → (20 ≤ bonus_points bm s) × ((ltb_ℤ (pos 125) bm ≡ false) → bonus_points bm s ≤ s)
unfolding bonus_points
bonus_points-bounds bm s h = ground arith

vehicle_points-bound : (t : String) → vehicle_points t ≤ 20
unfolding vehicle_points
vehicle_points-bound t = ground arith

old_points-bound : (a : Option ℤ) → old_points a ≤ 7
unfolding old_points
old_points-bound a = ground arith

zone_points-bound : (z : String) → zone_points z ≤ 10
unfolding zone_points
zone_points-bound z = ground arith

-- A risk score lies between 20 and 100; it is high, above 80, only for a driver under 25 or a
-- bonus-malus above 1.25.
pub score_de_risque-bounds :
    (dr : DonneesRisque)
    → (20 ≤ score_de_risque dr)
      × (score_de_risque dr ≤ 100)
      × ((score_de_risque dr ≤ 80)
          ⊎ ((ltb_ℤ (age dr) (pos 2_500) ≡ true) ⊎ (ltb_ℤ (pos 125) (bonus_malus dr) ≡ true)))
unfolding score_de_risque
score_de_risque-bounds dr =
    let (a, older) = age_points-bounds (age dr) in
    let (b, loyal) =
      bonus_points-bounds (bonus_malus dr) (30 + age_points (age dr)) (omega arith) in
    let v = vehicle_points-bound dr.type_vehicule in
    let o = old_points-bound dr.age_vehicule in
    let z = zone_points-bound dr.zone in
    elim (Bool-cases (ltb_ℤ (age dr) (pos 2_500))) [
      | inl young ↦ (omega arith, omega arith, inr (inl young))
      | inr grown ↦ elim (Bool-cases (ltb_ℤ (pos 125) (bonus_malus dr))) [
        | inl penalised ↦ (omega arith, omega arith, inr (inr penalised))
        | inr careful ↦
            let few = older grown in
            let fewer = loyal careful in (omega arith, omega arith, inl (omega arith))
      ]
    ]

unfoldable pub lead_age : ℤ → ℕ
lead_age a =
    if leb_ℤ (pos 2_500) a && leb_ℤ a (pos 5_500) then 25 else if ltb_ℤ a (pos 2_500) then 8 else 15

unfoldable pub lead_bonus : ℤ → ℕ
lead_bonus bm = if ltb_ℤ bm (pos 100) then 20 else if leb_ℤ bm (pos 125) then 12 else 4

unfoldable pub lead_vehicle : String → ℕ
lead_vehicle t = if t == "citadine" then 20 else if t == "suv" then 12 else 6

unfoldable pub lead_zone : String → ℕ
lead_zone z = if z == "banlieue" then 15 else if z == "paris" then 10 else 13

unfoldable pub lead_source : String → ℕ
lead_source s =
    if s == "parrainage" then 20 else if s == "seo" then 14 else if s == "pub" then 8 else 10

unfoldable pub lead_score : DonneesRisque → ℕ
lead_score dr =
    lead_age (age dr)
    + lead_bonus (bonus_malus dr)
    + lead_vehicle dr.type_vehicule
    + lead_zone dr.zone
    + lead_source dr.source

-- `decision` of `qualificationLead`
unfoldable pub lead_decision : DonneesRisque → String
unfolding lead_score
lead_decision dr = if ltb 60 (lead_score dr) then "qualifie" else "perdu"
