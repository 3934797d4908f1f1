-- ===== src/Tests/Orders.antt =====
-- The canonical form of buzz-hermes-bridge/src/commands/schemas.ts for one command in two key orders.
use assurance_toto.Prelude.{pos, [], ◌∷◌, ◌≡◌, ◌≢◌, eq_iff, String, refl}
use assurance_toto.Json.{num, Json, str, object, stable_stringify}
use assurance_toto.Json.KeyOrder.{keys, swap, stable_stringify-Reordered}

abbrev one_order : Json
one_order = object (("type", str "t") ∷ ("reason", str "r") ∷ ("by", str "b") ∷ [])

abbrev other_order : Json
other_order = object (("reason", str "r") ∷ ("type", str "t") ∷ ("by", str "b") ∷ [])

abbrev type_key : String
type_key = "type"

abbrev reason_key : String
reason_key = "reason"

type_key-reason_key : type_key ≢ reason_key
type_key-reason_key e = let same = (eq_iff type_key reason_key).1 e in absurd (cc same)

stable_stringify-Reordered_example : stable_stringify one_order ≡ stable_stringify other_order
stable_stringify-Reordered_example =
    stable_stringify-Reordered one_order other_order (keys (swap type_key-reason_key))

stable_test :
    stable_stringify (object (("b", num (pos 100)) ∷ ("a", num (pos 250)) ∷ []))
    ≡ "{\"a\":2.5,\"b\":1}"
unfolding stable_stringify
stable_test = refl
