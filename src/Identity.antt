-- ===== src/Identity.antt =====
-- buzz-hermes-bridge/src/identity/keys.ts and verify.ts: normalised public keys, and the check of a
-- signed event against the command that it carries. NIP-19 decoding, the Schnorr check and
-- `JSON.parse` are parameters.
pub mod Forgery
use assurance_toto.Prelude.{
  ℕ, String, Bool, true, false, not, Option, none, some, List, [], ◌∷◌, ◌==◌, nat_eq, if◌then◌else◌,
  template, trim, to_lower_case, is_hex64, decimal,
}
use assurance_toto.Json.{Json, stable_stringify}

-- `decode` of nostr-tools/nip19; `none` where it throws.
pub data Decoded : Type 0 where
  npub : (hex : String) → Decoded
  other_entity : Decoded

abbrev npub_hex : Option Decoded → Option String
npub_hex (some (npub hex)) = some hex
npub_hex _ = none

module _ (decode : String → Option Decoded) where
  -- `normalizePubkey`; `none` where it throws.
  unfoldable pub normalize_pubkey : String → Option String
  normalize_pubkey input =
      let t : String = trim input in
      if is_hex64 t then some (to_lower_case t) else npub_hex (decode t)

  abbrev or_lower : String → Option String → String
  or_lower input none = to_lower_case input
  or_lower input (some hex) = hex

  -- `safeNormalizeHex` of pipeline.ts, `authorNpubHex` of verify.ts and `safeNorm` of http/server.ts.
  unfoldable pub safe_normalize_hex : String → String
  unfolding normalize_pubkey
  safe_normalize_hex input = or_lower input (normalize_pubkey input)

pub record SignedEvent : Type 0 where
  pub id : String
  pub pubkey : String
  pub sig : String
  pub created_at : ℕ
  pub kind : ℕ
  pub tags : List (List String)
  pub content : String

pub data SigVerify : Type 0 where
  verified : (author_hex : String) → SigVerify
  rejected : (reason : String) → SigVerify

-- `sameCommand`
unfoldable pub same_command : Json → Json → Bool
same_command a b = stable_stringify a == stable_stringify b

-- `verify_event ev` is `none` where nostr-tools throws.
module _ (parse_json : String → Option Json) (verify_event : SignedEvent → Option Bool) where
  abbrev by_signature : SignedEvent → Option Bool → SigVerify
  by_signature ev (some true) = verified (to_lower_case ev.pubkey)
  by_signature ev (some false) = rejected "signature.nostr_invalide"
  by_signature ev none = rejected "signature.nostr_invalide"

  abbrev by_content : SignedEvent → Json → Option Json → SigVerify
  by_content ev cmd none = rejected "content.non_json"
  by_content ev cmd (some content) =
      if not (same_command content cmd)
      then rejected "content.mismatch:commande_event_non_identique"
      else by_signature ev (verify_event ev)

  -- `verifySignedEventForCommand`; the command is the object that was validated.
  unfoldable pub verify_signed_event_for_command : SignedEvent → Json → SigVerify
  verify_signed_event_for_command ev cmd =
      if not (nat_eq ev.kind 9)
      then rejected (template ("kind.invalide:" ∷ decimal ev.kind ∷ " (attendu 9)" ∷ []))
      else by_content ev cmd (parse_json ev.content)
