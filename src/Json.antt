-- ===== src/Json.antt =====
-- JavaScript's JSON values, and the two printers that buzz-hermes-bridge uses: `JSON.stringify`, and
-- the canonical form with sorted keys of commands/schemas.ts (the same function as `canonical` of
-- identity/verify.ts). A number is a count of hundredths.
pub mod KeyOrder
use Prim.Native.Nat.{Ordering}
use Prim.Native.String
use assurance_toto.Prelude.{
  String, Bool, true, false, Option, none, List, [], ◌∷◌, ℤ, pos_part, neg_part, ltb_ℤ,
  if◌then◌else◌, template, join, lookup, quote, show_hundredths, ◌≡◌, refl, pos, map,
}

mutual
  pub data Json : Type 0 where
    null : Json
    bool : Bool → Json
    num : ℤ → Json
    str : String → Json
    arr : Items → Json
    obj : Fields → Json

  pub data Items : Type 0 where
    nil : Items
    cons : Json → Items → Items

  pub data Fields : Type 0 where
    end : Fields
    field : String → Json → Fields → Fields

-- `Object.entries(o)`
abbrev pub props : Fields → List (String × Json)
props end = []
props (field k v fs) = (k, v) ∷ props fs

abbrev pub elems : Items → List Json
elems nil = []
elems (cons v vs) = v ∷ elems vs

abbrev pub fields : List (String × Json) → Fields
fields [] = end
fields ((k, v) ∷ rest) = field k v (fields rest)

-- Object and array literals of the source.
abbrev pub object : List (String × Json) → Json
object kvs = obj (fields kvs)

abbrev pub text_items : List String → Items
text_items [] = nil
text_items (s ∷ rest) = cons (str s) (text_items rest)

abbrev pub texts : List String → Json
texts ss = arr (text_items ss)

-- `o[key]`, for a value that may be no object
abbrev pub get : String → Json → Option Json
get k (obj fs) = lookup k (props fs)
get k _ = none

-- `payload ?? {}`
abbrev pub payload_or_empty : Json → Json
payload_or_empty null = obj end
payload_or_empty v = v

pub payload_or_empty_idem : (p : Json) → payload_or_empty (payload_or_empty p) ≡ payload_or_empty p
payload_or_empty_idem null = refl
payload_or_empty_idem _ = refl

-- `JSON.stringify` of a value that holds no other value
unfoldable pub print_leaf : Json → String
print_leaf null = "null"
print_leaf (bool true) = "true"
print_leaf (bool false) = "false"
print_leaf (num n) =
    if ltb_ℤ n (pos 0)
    then template ("-" ∷ show_hundredths (neg_part n) ∷ [])
    else show_hundredths (pos_part n)
print_leaf (str s) = quote s
print_leaf (arr vs) = ""
print_leaf (obj fs) = ""

-- `${JSON.stringify(k)}:${text}`
abbrev pub entry : String × String → String
entry (k, text) = template (quote k ∷ ":" ∷ text ∷ [])

abbrev braced : List String → String
braced parts = template ("{" ∷ join "," parts ∷ "}" ∷ [])

abbrev bracketed : List String → String
bracketed parts = template ("[" ∷ join "," parts ∷ "]" ∷ [])

-- One round of `Object.keys(obj).sort()`, on entries that carry their printed value.
unfoldable pub insert_key : String × String → List (String × String) → List (String × String)
insert_key (k, v) [] = (k, v) ∷ []
insert_key (k, v) ((j, w) ∷ rest) = elim (String.compare k j) [
  | Ordering.lt ↦ (k, v) ∷ (j, w) ∷ rest
  | _ ↦ (j, w) ∷ insert_key (k, v) rest
]

unfoldable mutual
  unfolding print_leaf insert_key template join quote show_hundredths

  pub stable_stringify : Json → String
  stable_stringify (arr vs) = bracketed (stable_items vs)
  stable_stringify (obj fs) = braced (map entry (stable_entries fs))
  stable_stringify v = print_leaf v

  pub stable_items : Items → List String
  stable_items nil = []
  stable_items (cons v vs) = stable_stringify v ∷ stable_items vs

  pub stable_entries : Fields → List (String × String)
  stable_entries end = []
  stable_entries (field k v fs) = insert_key (k, stable_stringify v) (stable_entries fs)

unfoldable mutual
  unfolding print_leaf template join quote show_hundredths

  pub stringify : Json → String
  stringify (arr vs) = bracketed (print_items vs)
  stringify (obj fs) = braced (map entry (print_entries fs))
  stringify v = print_leaf v

  pub print_items : Items → List String
  print_items nil = []
  print_items (cons v vs) = stringify v ∷ print_items vs

  pub print_entries : Fields → List (String × String)
  print_entries end = []
  print_entries (field k v fs) = (k, stringify v) ∷ print_entries fs
