-- ===== src/Commands/Keywords.antt =====
-- The JSON-Schema keywords of buzz-hermes-bridge/src/commands/schemas.ts, as data, and what a
-- conforming object is: the documented meaning of `required`, `additionalProperties: false`, `const`,
-- `minLength`, `maxLength`, `exclusiveMinimum`, `maximum`, `pattern`, `format`, `items`, `minItems`
-- and `maxItems`. Ajv itself is a parameter; its theorems assume that it agrees with `conforms`.
use Prim.Native.String.{count}
use assurance_toto.Prelude.{
  ℕ, String, Bool, true, false, Option, none, some, List, [], ◌∷◌, ℤ, lookup, ◌==◌, ◌&&◌, ◌||◌, leb,
  ltb_ℤ, leb_ℤ, nat_eq, code, all, is_some, between, is_digit, is_lower_hex64, every_char, length,
  if◌then◌else◌,
}
use assurance_toto.Json.{Json, num, str, arr, elems}

pub data Pattern : Type 0 where
  npub periode : Pattern

pub data PropSchema : Type 0 where
  const : String → PropSchema
  text : (min_length max_length : ℕ) → PropSchema
  number : (exclusive_minimum maximum : ℤ) → PropSchema
  pattern : Pattern → PropSchema
  date_time : PropSchema
  text_array : (item_min_length min_items max_items : ℕ) → PropSchema

pub record Schema : Type 0 where
  pub id : String
  pub required : List String
  pub properties : List (String × PropSchema)

-- `[02-9ac-hj-np-z]`
abbrev is_bech32 : ℕ → Bool
is_bech32 c =
    nat_eq c b'0'
    || between b'2' b'9' c
    || nat_eq c b'a'
    || between b'c' b'h' c
    || between b'j' b'n' c
    || between b'p' b'z' c

abbrev non_empty : String → Bool
non_empty String.[] = false
non_empty (String.◌∷◌ c s) = true

-- The rest of a text after a literal prefix.
abbrev after : List ℕ → String → Option String
after [] s = some s
after (p ∷ ps) String.[] = none
after (p ∷ ps) (String.◌∷◌ c s) = let rest = after ps s in if nat_eq (code c) p then rest else none

abbrev bech32_tail : Option String → Bool
bech32_tail none = false
bech32_tail (some s) = non_empty s && every_char is_bech32 s

-- NPUB_PATTERN, `^(npub1[02-9ac-hj-np-z]+|[0-9a-f]{64})$`
unfoldable pub matches_npub : String → Bool
unfolding every_char is_lower_hex64
matches_npub s = bech32_tail (after (b'n' ∷ b'p' ∷ b'u' ∷ b'b' ∷ b'1' ∷ []) s) || is_lower_hex64 s

-- `(0[1-9]|1[0-2])$` behind `-`
abbrev matches_month : String → Bool
matches_month (String.◌∷◌ a (String.◌∷◌ b (String.◌∷◌ c String.[]))) =
    nat_eq (code a) b'-'
    && ((nat_eq (code b) b'0' && between b'1' b'9' (code c))
        || (nat_eq (code b) b'1' && between b'0' b'2' (code c)))
matches_month _ = false

abbrev matches_year : Option String → Bool
matches_year (some (String.◌∷◌ a (String.◌∷◌ b rest))) =
    is_digit (code a) && is_digit (code b) && matches_month rest
matches_year _ = false

-- `^20[0-9]{2}-(0[1-9]|1[0-2])$`
unfoldable pub matches_periode : String → Bool
matches_periode s = matches_year (after (b'2' ∷ b'0' ∷ []) s)

abbrev pub matches : Pattern → String → Bool
matches npub s = matches_npub s
matches periode s = matches_periode s

abbrev pub is_text_from : ℕ → Json → Bool
is_text_from n (str s) = leb n (count s)
is_text_from n _ = false

-- The format `date-time` belongs to ajv-formats.
module _ (is_date_time : String → Bool) where
  abbrev pub holds : PropSchema → Json → Bool
  holds (const c) (str s) = s == c
  holds (text lo hi) (str s) = leb lo (count s) && leb (count s) hi
  holds (number lo hi) (num n) = ltb_ℤ lo n && leb_ℤ n hi
  holds (pattern p) (str s) = matches p s
  holds date_time (str s) = is_date_time s
  holds (text_array item lo hi) (arr vs) =
      leb lo (length (elems vs)) && leb (length (elems vs)) hi && all (is_text_from item) (elems vs)
  holds _ _ = false

  -- A property that the schema lacks is refused.
  abbrev pub known : Schema → String × Json → Bool
  known s (k, v) = elim (lookup k s.properties) [ none ↦ false | some p ↦ holds p v ]

  unfoldable pub conforms : Schema → List (String × Json) → Bool
  conforms s o = all (λ k. is_some (lookup k o)) s.required && all (known s) o
