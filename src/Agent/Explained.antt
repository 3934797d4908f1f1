-- ===== src/Agent/Explained.antt =====
-- The reasons that `scoreDeRisque` of agents/_runtime/src/tools/tools.ts gives with a score, and what
-- they are worth.
use assurance_toto.Prelude.{
  ℕ, ◌+◌, ◌-◌, ◌≤◌, min, String, Option, List, [], ◌∷◌, ◌++◌, ◌≡◌, refl, arith, or_else, ℤ, pos,
  ltb_ℤ, ◌==◌, if◌then◌else◌, Bool-cases, inl, inr,
}
use assurance_toto.Agent.Risk.{
  DonneesRisque, age, bonus_malus, age_points, bonus_points, vehicle_points, old_points,
  zone_points, score_de_risque,
}

unfoldable pub age_reasons : ℤ → List String
age_reasons a =
    if ltb_ℤ a (pos 2_500)
    then "driver under 25" ∷ []
    else if ltb_ℤ (pos 6_500) a
    then "driver over 65" ∷ []
    else []

unfoldable pub bonus_reasons : ℤ → List String
bonus_reasons bm =
    if ltb_ℤ (pos 250) bm
    then "bonus-malus > 2.5 (atypical profile)" ∷ []
    else if ltb_ℤ (pos 125) bm
    then "high bonus-malus" ∷ []
    else if ltb_ℤ bm (pos 90)
    then "loyalty bonus" ∷ []
    else []

unfoldable pub vehicle_reasons : String → List String
vehicle_reasons t =
    if t == "sportive" then "sports vehicle" ∷ [] else if t == "suv" then "SUV" ∷ [] else []

unfoldable pub old_reasons : Option ℤ → List String
old_reasons a =
    if ltb_ℤ (pos 1_000) (or_else a (pos 0)) then "vehicle over 10 years old" ∷ [] else []

unfoldable pub zone_reasons : String → List String
zone_reasons z = if z == "paris" then "Paris city-center zone" ∷ [] else []

-- `scoreDeRisque`, its `facteurs`
unfoldable pub facteurs : DonneesRisque → List String
facteurs dr =
    age_reasons (age dr)
    ++ bonus_reasons (bonus_malus dr)
    ++ vehicle_reasons dr.type_vehicule
    ++ old_reasons dr.age_vehicule
    ++ zone_reasons dr.zone

-- What each reason adds to a score.
unfoldable pub added : String → ℕ
added r =
    if r == "bonus-malus > 2.5 (atypical profile)"
    then 30
    else if r == "driver under 25"
    then 25
    else if r == "sports vehicle"
    then 20
    else if r == "high bonus-malus"
    then 15
    else if r == "driver over 65"
    then 10
    else if r == "Paris city-center zone"
    then 10
    else if r == "SUV"
    then 8
    else if r == "vehicle over 10 years old"
    then 7
    else 0

-- What each reason takes from it.
unfoldable pub taken : String → ℕ
taken r = if r == "loyalty bonus" then 10 else 0

abbrev pub total : (String → ℕ) → List String → ℕ
total f [] = 0
total f (r ∷ rs) = f r + total f rs

total-append : (f : String → ℕ) (rs ss : List String) → total f (rs ++ ss) ≡ total f rs + total f ss
total-append f [] ss = omega arith
total-append f (r ∷ rs) ss = let p = total-append f rs ss in omega arith

age-total :
    (a : ℤ) → (total added (age_reasons a) ≡ age_points a) × (total taken (age_reasons a) ≡ 0)
unfolding age_reasons age_points added taken
age-total a = elim (Bool-cases (ltb_ℤ a (pos 2_500))) [
  | inl young ↦ rw young (refl, refl)
  | inr grown ↦ rw grown (elim (Bool-cases (ltb_ℤ (pos 6_500) a)) [
    | inl old ↦ rw old (refl, refl)
    | inr usual ↦ rw usual (refl, refl)
  ])
]

bonus-total :
    (bm : ℤ) (s : ℕ)
    → (bonus_points bm s ≡ s + total added (bonus_reasons bm) - total taken (bonus_reasons bm))
      × (total taken (bonus_reasons bm) ≤ 10)
unfolding bonus_reasons bonus_points added taken
bonus-total bm s = elim (Bool-cases (ltb_ℤ (pos 250) bm)) [
  | inl atypical ↦ rw atypical (omega arith, omega arith)
  | inr below ↦ rw below (elim (Bool-cases (ltb_ℤ (pos 125) bm)) [
    | inl high ↦ rw high (omega arith, omega arith)
    | inr low ↦ rw low (elim (Bool-cases (ltb_ℤ bm (pos 90))) [
      | inl loyal ↦ rw loyal (omega arith, omega arith)
      | inr usual ↦ rw usual (omega arith, omega arith)
    ])
  ])
]

vehicle-total :
    (t : String)
    → (total added (vehicle_reasons t) ≡ vehicle_points t) × (total taken (vehicle_reasons t) ≡ 0)
unfolding vehicle_reasons vehicle_points added taken
vehicle-total t = elim (Bool-cases (t == "sportive")) [
  | inl sports ↦ rw sports (refl, refl)
  | inr other ↦ rw other (elim (Bool-cases (t == "suv")) [
    | inl suv ↦ rw suv (refl, refl)
    | inr usual ↦ rw usual (refl, refl)
  ])
]

old-total :
    (a : Option ℤ)
    → (total added (old_reasons a) ≡ old_points a) × (total taken (old_reasons a) ≡ 0)
unfolding old_reasons old_points added taken
old-total a = elim (Bool-cases (ltb_ℤ (pos 1_000) (or_else a (pos 0)))) [
  | inl old ↦ rw old (refl, refl)
  | inr recent ↦ rw recent (refl, refl)
]

zone-total :
    (z : String)
    → (total added (zone_reasons z) ≡ zone_points z) × (total taken (zone_reasons z) ≡ 0)
unfolding zone_reasons zone_points added taken
zone-total z = elim (Bool-cases (z == "paris")) [
  | inl paris ↦ rw paris (refl, refl)
  | inr other ↦ rw other (refl, refl)
]

total-facteurs :
    (f : String → ℕ) (dr : DonneesRisque)
    → total f (facteurs dr)
      ≡ total f (age_reasons (age dr))
        + total f (bonus_reasons (bonus_malus dr))
        + total f (vehicle_reasons dr.type_vehicule)
        + total f (old_reasons dr.age_vehicule)
        + total f (zone_reasons dr.zone)
unfolding facteurs
total-facteurs f dr = rw (total-append, total-append, total-append, total-append) refl

-- The reasons that come with a risk score account for it: it is 30, with what each of them adds and less
-- what each takes, and at most 100.
pub score_de_risque-facteurs :
    (dr : DonneesRisque)
    → score_de_risque dr ≡ min (30 + total added (facteurs dr) - total taken (facteurs dr)) 100
unfolding score_de_risque
score_de_risque-facteurs dr =
    let gains = total-facteurs added dr in
    let losses = total-facteurs taken dr in
    let (a, a0) = age-total (age dr) in
    let (b, b0) = bonus-total (bonus_malus dr) (30 + age_points (age dr)) in
    let (v, v0) = vehicle-total dr.type_vehicule in
    let (o, o0) = old-total dr.age_vehicule in let (z, z0) = zone-total dr.zone in omega arith
