-- ===== src/Identity/Forgery.antt =====
-- What a verified event of buzz-hermes-bridge/src/identity/verify.ts guarantees.
use assurance_toto.Json.{Json}
