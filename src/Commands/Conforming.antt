-- ===== src/Commands/Conforming.antt =====
-- The properties of an object that conforms to a schema of buzz-hermes-bridge/src/commands/schemas.ts.
use Prim.Native.String.{count}
use assurance_toto.Prelude.{
  length, map, ap, suc, refl, ℕ, ◌≤◌, ◌<◌, String, Bool, true, some, List, [], ◌∷◌, ◌≡◌, subst, inl,
  inr, arith, eq_iff, lookup, member, Option-cases, Bool-cases, all, is_some, pos, negsuc, ◌==◌,
}
use assurance_toto.Json.{Json, str, num, arr, elems}
use assurance_toto.Commands.{text_of, amount_of, texts_of}
use assurance_toto.Commands.Keywords.{
  Schema, PropSchema, date_time, text_array, is_text_from, text, number, pattern, npub, periode,
  conforms, holds, known, matches_npub, matches_periode,
}

abbrev pub IsText : ℕ → String → Type 0
IsText hi s = (1 ≤ count s) × (count s ≤ hi)

abbrev pub IsAmount : ℕ → Type 0
IsAmount m = (0 < m) × (m ≤ 1_000_000_000)

-- A list of 1 to `hi` texts, none of them empty.
abbrev AreWritten : List String → Type 0
AreWritten [] = Unit
AreWritten (s ∷ ss) = (1 ≤ count s) × AreWritten ss

abbrev pub AreTexts : ℕ → List String → Type 0
AreTexts hi ss = (1 ≤ length ss) × (length ss ≤ hi) × AreWritten ss

AreWritten-texts :
    (vs : List Json) → all (is_text_from 1) vs ≡ true → AreWritten (map (λ v. text_of (some v)) vs)
AreWritten-texts [] h = tt
AreWritten-texts (str s ∷ vs) h = (ground (arith, h), AreWritten-texts vs (ground (arith, h)))
AreWritten-texts (_ ∷ vs) h = cc

length-texts : (vs : List Json) → length (map (λ v. text_of (some v)) vs) ≡ length vs
length-texts [] = refl
length-texts (v ∷ vs) = ap suc (length-texts vs)

module _ (is_date_time : String → Bool) where
  all-lookup :
      (s : Schema) (k : String) (v : Json) (o : List (String × Json))
      → all (known is_date_time s) o ≡ true
      → lookup k o ≡ some v
      → known is_date_time s (k, v) ≡ true
  unfolding lookup
  all-lookup s k v ((j, u) ∷ o) h e = elim (Bool-cases (j == k)) [
    | inl same ↦
        let p : known is_date_time s (j, u) ≡ true = ground (arith, h) in
        let here : u ≡ v = cc (rw same at e) in
        subst (λ y. known is_date_time s (k, y) ≡ true) here
          (subst (λ x. known is_date_time s (x, u) ≡ true) ((eq_iff j k).0 same) p)
    | inr other ↦ all-lookup s k v o (ground (arith, h)) (rw other at e)
  ]
  all-lookup s k v [] h e = cc

  required-lookup :
      (k : String) (ks : List String) (o : List (String × Json))
      → all (λ j. is_some (lookup j o)) ks ≡ true
      → member k ks ≡ true
      → is_some (lookup k o) ≡ true
  unfolding member
  required-lookup k (j ∷ ks) o h m = elim (Bool-cases (j == k)) [
    | inl same ↦
        let p : is_some (lookup j o) ≡ true = ground (arith, h) in
        subst (λ x. is_some (lookup x o) ≡ true) ((eq_iff j k).0 same) p
    | inr other ↦ required-lookup k ks o (ground (arith, h)) (ground (arith, m, other))
  ]
  required-lookup k [] o h m = cc

  -- A required property of a conforming object.
  field-holds :
      (s : Schema) (o : List (String × Json)) (k : String) (p : PropSchema)
      → conforms is_date_time s o ≡ true
      → member k s.required ≡ true
      → lookup k s.properties ≡ some p
      → (v : Json) × (lookup k o ≡ some v) × (holds is_date_time p v ≡ true)
  unfolding conforms
  field-holds s o k p h m l = elim (Option-cases (lookup k o)) [
    | inl missing ↦
        let there = required-lookup k s.required o (ground (arith, h)) m in
        absurd (cc (rw missing at there))
    | inr (v, found) ↦ (v, found, rw (known, l) at (all-lookup s k v o (ground (arith, h)) found))
  ]

  is_text :
      (hi : ℕ) (v : Json) → holds is_date_time (text 1 hi) v ≡ true → IsText hi (text_of (some v))
  is_text hi (str s) h = ground arith
  is_text hi _ h = cc

  is_amount :
      (v : Json)
      → holds is_date_time (number (pos 0) (pos 1_000_000_000)) v ≡ true
      → IsAmount (amount_of (some v))
  is_amount (num (pos n)) h = ground arith
  is_amount (num (negsuc n)) h = ground arith
  is_amount _ h = cc

  is_npub :
      (v : Json)
      → holds is_date_time (pattern npub) v ≡ true
      → matches_npub (text_of (some v)) ≡ true
  is_npub (str s) h = h
  is_npub _ h = cc

  is_periode :
      (v : Json)
      → holds is_date_time (pattern periode) v ≡ true
      → matches_periode (text_of (some v)) ≡ true
  is_periode (str s) h = h
  is_periode _ h = cc

  is_date :
      (v : Json) → holds is_date_time date_time v ≡ true → is_date_time (text_of (some v)) ≡ true
  is_date (str s) h = h
  is_date _ h = cc

  are_texts :
      (hi : ℕ) (v : Json)
      → holds is_date_time (text_array 1 1 hi) v ≡ true
      → AreTexts hi (texts_of (some v))
  are_texts hi (arr vs) h =
      rw (length-texts (elems vs))
        (ground (arith, h), ground (arith, h), AreWritten-texts (elems vs) (ground (arith, h)))
  are_texts hi _ h = cc

  module _ (s : Schema) (o : List (String × Json)) (h : conforms is_date_time s o ≡ true) where
    pub IsText-field :
        (k : String) (hi : ℕ)
        → member k s.required ≡ true
        → lookup k s.properties ≡ some (text 1 hi)
        → IsText hi (text_of (lookup k o))
    IsText-field k hi m l =
        let (v, found, good) = field-holds s o k (text 1 hi) h m l in rw found (is_text hi v good)

    pub IsAmount-field :
        (k : String)
        → member k s.required ≡ true
        → lookup k s.properties ≡ some (number (pos 0) (pos 1_000_000_000))
        → IsAmount (amount_of (lookup k o))
    IsAmount-field k m l =
        let (v, found, good) = field-holds s o k (number (pos 0) (pos 1_000_000_000)) h m l in
        rw found (is_amount v good)

    pub npub-field :
        (k : String)
        → member k s.required ≡ true
        → lookup k s.properties ≡ some (pattern npub)
        → matches_npub (text_of (lookup k o)) ≡ true
    npub-field k m l =
        let (v, found, good) = field-holds s o k (pattern npub) h m l in rw found (is_npub v good)

    pub periode-field :
        (k : String)
        → member k s.required ≡ true
        → lookup k s.properties ≡ some (pattern periode)
        → matches_periode (text_of (lookup k o)) ≡ true
    periode-field k m l =
        let (v, found, good) = field-holds s o k (pattern periode) h m l in
        rw found (is_periode v good)

    pub date-field :
        (k : String)
        → member k s.required ≡ true
        → lookup k s.properties ≡ some date_time
        → is_date_time (text_of (lookup k o)) ≡ true
    date-field k m l =
        let (v, found, good) = field-holds s o k date_time h m l in rw found (is_date v good)

    pub AreTexts-field :
        (k : String) (hi : ℕ)
        → member k s.required ≡ true
        → lookup k s.properties ≡ some (text_array 1 1 hi)
        → AreTexts hi (texts_of (lookup k o))
    AreTexts-field k hi m l =
        let (v, found, good) = field-holds s o k (text_array 1 1 hi) h m l in
        rw found (are_texts hi v good)
