-- ===== src/Agent/Settlement.antt =====
-- The tool `recommander_reglement` of agents/_runtime/src/tools/tools.ts, with `buildSettlementCommand`
-- of bridge/client.ts. The proposed amount is a count of units, `2 * half` of them to a cent, so that an
-- amount of any fineness is one; the threshold and the amount of a command are in cents. Of JavaScript,
-- the conversion `Number` of texts, arrays and objects (`none` where the result is not finite) and the
-- JSON number for a count of units are parameters.
use assurance_toto.Prelude.{
  ◌||◌, ◌==◌, ℕ, suc, ◌≤◌, ◌<◌, String, Bool, true, false, Option, none, some, List, [], ◌∷◌, ◌≡◌,
  refl, arith, lookup, trim, take_chars, template, ltb, ℤ, pos, negsuc, if◌then◌else◌, Bool-cases,
  inl, inr,
}
use native.Mathlib.Nat.{div-mul-le_self, lt-div-mul-add, div-lt_iff_lt-mul}
use assurance_toto.Prelude.{◌+◌, ◌*◌, ◌/◌, neg_abs}
use assurance_toto.Json.{Json, null, bool, num, str, object}

-- A `claim.settlement.approve` for the bridge.
pub record Settlement : Type 0 where
  pub claim_id : String
  pub max_amount_eur : ℕ
  pub reason : String
  pub approved_by : String
  pub requested_at : String

-- `BridgeApprobationInput`; the amount is the proposed one, in units.
pub record Escalation : Type 0 where
  pub claim_id : String
  pub montant_eur : ℕ
  pub reason : String
  pub requested_by : String

-- `ToolExecution`
pub record ToolExecution : Type 0 where
  pub tool : String
  pub ok : Bool
  pub result : Json
  pub candidate_command : Option Settlement
  pub pending_approval : Option Escalation

abbrev pub failed : String → String → ToolExecution
failed tool message = record {
  tool = tool;
  ok = false;
  result = object (("error", str message) ∷ []);
  candidate_command = none;
  pending_approval = none;
}

abbrev unless_empty : String → String → Option String
unless_empty String.[] s = none
unless_empty (String.◌∷◌ c cs) s = some s

-- `reqString`; `none` where it throws.
abbrev pub string_of : ℕ → Option Json → Option String
string_of max (some (str s)) = unless_empty (trim s) (take_chars max (trim s))
string_of max _ = none

abbrev missing : String → String
missing key = template ("argument '" ∷ key ∷ "' missing or invalid" ∷ [])

module _ (half : ℕ) where
  -- The units of so many cents.
  abbrev pub cents : ℕ → ℕ
  cents n = n * (2 * half)

  -- `Math.round(n * 100)`, which rounds a half up.
  abbrev pub round_to_cents : ℕ → ℕ
  round_to_cents m = (m + half) / (2 * half)

  -- `clampAmount`; `none` is NaN.
  abbrev clamp_amount : ℕ → Option ℕ
  clamp_amount ℕ.zero = none
  clamp_amount (suc m) = some (round_to_cents (suc m))

  abbrev units_of : ℤ → ℤ
  units_of (pos n) = pos (cents n)
  units_of (negsuc n) = neg_abs (cents (suc n))

module _ (half : ℕ) (number_of_value : Json → Option ℤ) where
  -- `optNumber`
  abbrev pub number_of : Option Json → Option ℤ
  number_of none = none
  number_of (some null) = some (pos 0)
  number_of (some (bool false)) = some (pos 0)
  number_of (some (bool true)) = some (pos (cents half 100))
  number_of (some (num n)) = some (units_of half n)
  number_of (some v) = number_of_value v

  module _ (number_json : ℕ → Json) (threshold : ℕ) (agent_npub now : String) where
    abbrev within_bridge : String → String → Option ℕ → Option Settlement
    within_bridge claim raison none = none
    within_bridge claim raison (some amount) =
        if ltb 1_000_000_000 amount
        then none
        else some (record {
          claim_id = claim;
          max_amount_eur = amount;
          reason = raison;
          approved_by = agent_npub;
          requested_at = now;
        })

    -- `buildSettlementCommand`
    unfoldable pub build_settlement_command : String → ℕ → String → Option Settlement
    build_settlement_command claim montant raison =
        if take_chars 64 claim == "" || take_chars 500 raison == ""
        then none
        else within_bridge (take_chars 64 claim) (take_chars 500 raison) (clamp_amount half montant)

    abbrev outcome :
        String → String → ℕ → Bool → Option Settlement → Option Escalation → ToolExecution
    outcome kind claim montant escalated candidate pending = record {
      tool = "recommander_reglement";
      ok = true;
      result = object (
          ("recommandation", str kind)
          ∷ ("claim_id", str claim)
          ∷ ("montant_eur", number_json montant)
          ∷ ("escalation_ceo", bool escalated)
          ∷ ("seuil_eur", num (pos threshold))
          ∷ []);
      candidate_command = candidate;
      pending_approval = pending;
    }

    abbrev commanded : String → ℕ → Option Settlement → ToolExecution
    commanded claim montant none =
        failed "recommander_reglement" "invalid claim.settlement.approve command"
    commanded claim montant (some command) =
        outcome "claim.settlement.approve" claim montant false (some command) none

    abbrev with_amount : String → String → Option ℤ → ToolExecution
    with_amount claim raison (some (pos (suc m))) =
        if ltb (cents half threshold) (suc m)
        then outcome "approbations.create" claim (suc m) true none (
            some (record {
              claim_id = claim;
              montant_eur = suc m;
              reason = raison;
              requested_by = agent_npub;
            }))
        else commanded claim (suc m) (build_settlement_command claim (suc m) raison)
    with_amount claim raison _ =
        failed "recommander_reglement" "'montant' must be a strictly positive number"

    abbrev with_texts : Option String → Option String → Option ℤ → ToolExecution
    with_texts none raison montant = failed "recommander_reglement" (missing "claim_id")
    with_texts (some claim) none montant = failed "recommander_reglement" (missing "raison")
    with_texts (some claim) (some raison) montant = with_amount claim raison montant

    -- `execute` of `recommander_reglement`, and its errors as the registry reports them
    unfoldable pub recommander_reglement : List (String × Json) → ToolExecution
    recommander_reglement args =
        with_texts (string_of 64 (lookup "claim_id" args)) (string_of 500 (lookup "raison" args))
          (number_of (lookup "montant" args))

    -- The proposed amount `n` is positive and within half a cent of the command's, which is at most the
    -- threshold and the bridge's bound.
    abbrev pub IsCandidate : Option ℤ → Option Settlement → Type 0
    IsCandidate n none = Unit
    IsCandidate n (some c) =
        (m : ℕ) × (n ≡ some (pos m))
        × (0 < m)
        × (cents half c.max_amount_eur ≤ m + half)
        × (m < cents half c.max_amount_eur + half)
        × (c.max_amount_eur ≤ threshold)
        × (c.max_amount_eur ≤ 1_000_000_000)
        × (c.approved_by ≡ agent_npub)

    -- The proposed amount `n` is the escalated one, above the threshold.
    abbrev pub IsEscalation : Option ℤ → Option Escalation → Type 0
    IsEscalation n none = Unit
    IsEscalation n (some e) =
        (n ≡ some (pos e.montant_eur))
        × (cents half threshold < e.montant_eur)
        × (e.requested_by ≡ agent_npub)

    abbrev pub NotBoth : Option Settlement → Option Escalation → Type 0
    NotBoth (some c) (some e) = ⊥
    NotBoth _ _ = Unit

    pub record IsBounded (n : Option ℤ) (t : ToolExecution) : Type 0 where
      pub candidate : IsCandidate n t.candidate_command
      pub escalation : IsEscalation n t.pending_approval
      pub one : NotBoth t.candidate_command t.pending_approval

    abbrev nothing :
        (n : Option ℤ) (message : String) → IsBounded n (failed "recommander_reglement" message)
    nothing n message = record { candidate = tt; escalation = tt; one = tt }

    module _ (some_half : 0 < half) where
      round-low : (m : ℕ) → cents half (round_to_cents half m) ≤ m + half
      round-low m = div-mul-le_self (m + half) (2 * half)

      round-high : (m : ℕ) → m < cents half (round_to_cents half m) + half
      round-high m =
          let p : m + half < (m + half) / (2 * half) * (2 * half) + 2 * half =
            lt-div-mul-add (omega (arith, some_half)) in
          omega arith

      round-bound : (m n : ℕ) → m ≤ cents half n → round_to_cents half m ≤ n
      round-bound m n within =
          let small : m + half < suc n * (2 * half) = omega arith in
          let p : (m + half) / (2 * half) < suc n =
            (div-lt_iff_lt-mul {x = m + half} {y = suc n} (omega (arith, some_half))).1 small in
          omega arith

      settled :
          (claim raison : String) (m : ℕ)
          → suc m ≤ cents half threshold
          → IsBounded
              (some (pos (suc m)))
              (commanded claim (suc m) (build_settlement_command claim (suc m) raison))
      unfolding build_settlement_command
      settled claim raison m within =
          elim (Bool-cases (take_chars 64 claim == "" || take_chars 500 raison == "")) [
            | inl blank ↦ rw blank (nothing _ _)
            | inr written ↦
                rw written (elim (Bool-cases (ltb 1_000_000_000 (round_to_cents half (suc m)))) [
                  | inl bad ↦ rw bad (nothing _ _)
                  | inr fine ↦ rw fine (record {
                    candidate = (
                      suc m,
                      refl,
                      omega arith,
                      round-low (suc m),
                      round-high (suc m),
                      round-bound (suc m) threshold within,
                      ground (arith, fine),
                      refl,
                    );
                    escalation = tt;
                    one = tt;
                  })
                ])
          ]

      with_amount-IsBounded :
          (claim raison : String) (n : Option ℤ) → IsBounded n (with_amount claim raison n)
      with_amount-IsBounded claim raison (some (pos (suc m))) =
          elim (Bool-cases (ltb (cents half threshold) (suc m))) [
            | inl above ↦ rw above (record {
              candidate = tt;
              escalation = (refl, ground (arith, above), refl);
              one = tt;
            })
            | inr within ↦ rw within (settled claim raison m (ground (arith, within)))
          ]
      with_amount-IsBounded claim raison (some (pos ℕ.zero)) = nothing _ _
      with_amount-IsBounded claim raison (some (negsuc n)) = nothing _ _
      with_amount-IsBounded claim raison none = nothing _ _

      -- Whatever the arguments, and whatever the unit of amounts, if half a cent has at least one: the
      -- tool never brings both a command and an escalation. A command has the agent as its author, and
      -- its amount is the proposed one, which is positive, rounded to a cent: within half a cent of it,
      -- at most the threshold and ten million euros, and possibly 0. An escalation is for the proposed
      -- amount, which is above the threshold.
      pub recommander_reglement-IsBounded :
          (args : List (String × Json))
          → IsBounded (number_of (lookup "montant" args)) (recommander_reglement args)
      unfolding recommander_reglement
      recommander_reglement-IsBounded args = texts _ _ _
        where
          texts :
              (claim raison : Option String) (n : Option ℤ)
              → IsBounded n (with_texts claim raison n)
          texts none raison n = nothing _ _
          texts (some claim) none n = nothing _ _
          texts (some claim) (some raison) n = with_amount-IsBounded claim raison n
