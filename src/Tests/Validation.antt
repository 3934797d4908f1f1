-- ===== src/Tests/Validation.antt =====
-- The validation of buzz-hermes-bridge/src/commands/schemas.ts on a settlement.
use assurance_toto.Prelude.{String, List, [], ◌≡◌, true, refl, ◌↔◌, arith, lookup}
use assurance_toto.Json.{Json}
use assurance_toto.Commands.{validate_command, get_schema, as_command}
use assurance_toto.Commands.Keywords.{Schema, conforms, matches_npub}
use assurance_toto.Commands.Validation.{IsWellFormed, validate_command-IsWellFormed}
use assurance_toto.Tests.Fixtures.{ajv_errors, any_date, settle_json, settle_command}

ajv_agrees :
    (s : Schema) (o : List (String × Json)) → (ajv_errors s o ≡ []) ↔ (conforms any_date s o ≡ true)
ajv_agrees s o = ground arith

validate_command-IsWellFormed_example : IsWellFormed any_date settle_command
unfolding validate_command get_schema as_command conforms lookup matches_npub
validate_command-IsWellFormed_example =
    validate_command-IsWellFormed any_date ajv_errors ajv_agrees settle_json settle_command _ refl
