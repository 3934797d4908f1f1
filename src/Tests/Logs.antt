-- ===== src/Tests/Logs.antt =====
-- The audit log and the signed events of buzz-hermes-bridge/src/audit.ts and identity/verify.ts.
use assurance_toto.Prelude.{
  String, Bool, true, Option, none, some, [], ◌∷◌, ◌++◌, ◌≡◌, refl, ◌⊎◌, ◌==◌, eq_iff,
  if◌then◌else◌,
}
use assurance_toto.Json.{Json, stable_stringify, stringify}
use assurance_toto.Rows.{AuditRow}
use assurance_toto.Audit.{AuditEntry, compute_audit_hash, verify_from, broken_at, append_audit}
use assurance_toto.Audit.Chain.{
  verify_tampered, verify_tamper_evident, SamePayloads, Collision, hashed_texts,
}
use assurance_toto.Audit.MemoryLog.{IsIntact, append_audit-IsIntact}
use assurance_toto.Identity.{SignedEvent}
use assurance_toto.Repository.Memory.{memory_repository}
use assurance_toto.Tests.Fixtures.{company, noon, read_json, same_text, settle_json, ceo_key}

abbrev row : String → AuditRow
row payload = record {
  seq = 1;
  correlation_id = "c-1";
  source = "bridge";
  action = "command";
  payload = payload;
  prev_hash = "";
  hash = "\"first\"";
  created_at = noon;
}

verify_tampered_example :
    verify_from same_text read_json "" ([] ++ row "other" ∷ [])
    ≡ broken_at 1 "hash mismatch (tampered payload?)"
unfolding verify_from compute_audit_hash stable_stringify
verify_tampered_example =
    verify_tampered same_text read_json "" [] (row "first") [] "other" refl (λ e.
      let same : ("\"other\"" == "\"first\"") ≡ true = (eq_iff "\"other\"" "\"first\"").1 e in
      cc (same))

abbrev one_digest : String → String
one_digest s = "d"

abbrev digest_row : String → AuditRow
digest_row payload = record (row payload) { hash = "d" }

verify_tamper_evident_example :
    SamePayloads one_digest read_json (digest_row "first" ∷ []) (digest_row "other" ∷ [])
    ⊎ Collision one_digest read_json
        (hashed_texts one_digest read_json "" (digest_row "first" ∷ []))
        (hashed_texts one_digest read_json "" (digest_row "other" ∷ []))
unfolding verify_from compute_audit_hash
verify_tamper_evident_example =
    verify_tamper_evident one_digest read_json 1 (λ s. refl) (digest_row "first" ∷ [])
      (digest_row "other" ∷ []) refl refl refl refl

abbrev noted : AuditEntry
noted = record {
  correlation_id = "c-1";
  source = "bridge";
  action = "command";
  payload = settle_json;
}

abbrev read_back : String → Option Json
read_back text = if text == stringify settle_json then some settle_json else none

append_audit-IsIntact_example :
    IsIntact same_text noon read_back
      (append_audit same_text (memory_repository noon) noted company).1
unfolding stringify verify_from
append_audit-IsIntact_example =
    append_audit-IsIntact same_text noon read_back noted company refl refl

abbrev event : SignedEvent
event = record {
  id = "e-1";
  pubkey = ceo_key;
  sig = "s";
  created_at = 0;
  kind = 9;
  tags = [];
  content = "settle";
}

abbrev trusting : SignedEvent → Option Bool
trusting ev = some true
