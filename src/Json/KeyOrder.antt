-- ===== src/Json/KeyOrder.antt =====
-- The canonical form of buzz-hermes-bridge/src/commands/schemas.ts (`stableStringify`) and the order of
-- the keys.
use assurance_toto.Json.{
  Json, arr, obj, Items, nil, cons, Fields, end, field, insert_key, stable_stringify, entry,
  stable_items, stable_entries,
}
use Prim.Native.Nat.{Ordering, compare as compare_ℕ}
use Prim.Native.Char.{Char, code}
use Prim.Native.String.compare as compare_laws
use Prim.Native.String.{compare, then}
use text.Mathlib.TextEquality.{codes_equal}
use assurance_toto.Prelude.{
  ltb→lt, ltb, Bool-cases, ◌∙◌, ℕ, ◌<◌, String, ◌≡◌, ◌⊎◌, arith, ◌≢◌, sym, inl, List, inr, refl,
  List, [], ◌∷◌, ap, template, join, map,
}

then_lt :
    (m n : ℕ) (o : Ordering)
    → then (compare_ℕ m n) o ≡ Ordering.lt
    → (m < n) ⊎ ((m ≡ n) × (o ≡ Ordering.lt))
then_lt m n o h = ground arith

less_then : (m n : ℕ) (o : Ordering) → m < n → then (compare_ℕ m n) o ≡ Ordering.lt
less_then m n o h = ground arith

same_then : (m n : ℕ) (o : Ordering) → m ≡ n → then (compare_ℕ m n) o ≡ o
same_then m n o h = ground arith

more_then : (m n : ℕ) (o : Ordering) → n < m → then (compare_ℕ m n) o ≡ Ordering.gt
more_then m n o h = ground arith

compare-cons :
    (c d : Char) (s t : String)
    → compare (String.◌∷◌ c s) (String.◌∷◌ d t) ≡ then (compare_ℕ (code c) (code d)) (compare s t)
compare-cons c d s t = λ i. compare_laws.cons-cons c d s t i

abbrev Less : String → String → Type 0
Less a b = compare a b ≡ Ordering.lt

Less-cons :
    (c d : Char) (s t : String)
    → Less (String.◌∷◌ c s) (String.◌∷◌ d t)
    → (code c < code d) ⊎ ((code c ≡ code d) × Less s t)
Less-cons c d s t h = then_lt (code c) (code d) (compare s t) (sym (compare-cons c d s t) ∙ h)

cons-Less :
    (c d : Char) (s t : String)
    → (code c < code d) ⊎ ((code c ≡ code d) × Less s t)
    → Less (String.◌∷◌ c s) (String.◌∷◌ d t)
cons-Less c d s t (inl less) = compare-cons c d s t ∙ less_then (code c) (code d) _ less
cons-Less c d s t (inr (e, h)) = compare-cons c d s t ∙ same_then (code c) (code d) _ e ∙ h

join_less :
    {A B C : Type 0} (m n k : ℕ)
    → (A → B → C)
    → (m < n) ⊎ ((m ≡ n) × A)
    → (n < k) ⊎ ((n ≡ k) × B)
    → (m < k) ⊎ ((m ≡ k) × C)
join_less m n k f (inl p) (inl q) = inl (omega (arith, p, q))
join_less m n k f (inl p) (inr (q, y)) = inl (omega (arith, p, q))
join_less m n k f (inr (p, x)) (inl q) = inl (omega (arith, p, q))
join_less m n k f (inr (p, x)) (inr (q, y)) = inr (p ∙ q, f x y)

nil_last : (a : String) → Less a String.[] → ⊥
nil_last String.[] h = absurd (cc)
nil_last (String.◌∷◌ c s) h =
    let after : compare (String.◌∷◌ c s) String.[] ≡ Ordering.gt =
      λ i. compare_laws.cons-nil c s i in
    absurd (cc (after, h))

Less-trans : (a b c : String) → Less a b → Less b c → Less a c
Less-trans a b String.[] h k = absurd (nil_last b k)
Less-trans a String.[] (String.◌∷◌ e u) h k = absurd (nil_last a h)
Less-trans String.[] (String.◌∷◌ d t) (String.◌∷◌ e u) h k = λ i. compare_laws.nil-cons e u i
Less-trans (String.◌∷◌ c s) (String.◌∷◌ d t) (String.◌∷◌ e u) h k = cons-Less c e s u (
    join_less (code c) (code d) (code e) (Less-trans s t u) (Less-cons c d s t h)
      (Less-cons d e t u k))

-- What comes before does not come after.
Less-flip : (a b : String) → Less a b → compare b a ≡ Ordering.gt
Less-flip a String.[] h = absurd (nil_last a h)
Less-flip String.[] (String.◌∷◌ d t) h = λ i. compare_laws.cons-nil d t i
Less-flip (String.◌∷◌ c s) (String.◌∷◌ d t) h = elim (Less-cons c d s t h) [
  | inl p ↦ compare-cons d c t s ∙ more_then (code d) (code c) _ p
  | inr (e, k) ↦ compare-cons d c t s ∙ same_then (code d) (code c) _ (sym e) ∙ Less-flip s t k
]

-- Two different keys stand in one order.
compare-ne : (a b : String) → a ≢ b → Less a b ⊎ Less b a
compare-ne String.[] String.[] n = absurd (n refl)
compare-ne String.[] (String.◌∷◌ d t) n = inl (λ i. compare_laws.nil-cons d t i)
compare-ne (String.◌∷◌ c s) String.[] n = inr (λ i. compare_laws.nil-cons c s i)
compare-ne (String.◌∷◌ c s) (String.◌∷◌ d t) n = elim (Bool-cases (ltb (code c) (code d))) [
  | inl p ↦ inl (cons-Less c d s t (inl (ltb→lt (code c) (code d) p)))
  | inr p ↦ elim (Bool-cases (ltb (code d) (code c))) [
    | inl q ↦ inr (cons-Less d c t s (inl (ltb→lt (code d) (code c) q)))
    | inr q ↦
        let e : code c ≡ code d = ground (arith, p, q) in
        let same : c ≡ d = codes_equal c d (ground (arith, e)) in
        elim (compare-ne s t (λ r. n (λ i. String.◌∷◌ (same i) (r i)))) [
          | inl h ↦ inl (cons-Less c d s t (inr (e, h)))
          | inr h ↦ inr (cons-Less d c t s (inr (sym e, h)))
        ]
  ]
]

-- Where a key goes: before a later one, and after any other.
insert_key-lt :
    (k v j w : String) (rest : List (String × String))
    → Less k j
    → insert_key (k, v) ((j, w) ∷ rest) ≡ (k, v) ∷ ((j, w) ∷ rest)
unfolding insert_key
insert_key-lt k v j w rest h = rw (insert_key, h) refl

abbrev NotLess : Ordering → Type 0
NotLess o = (o ≡ Ordering.eq) ⊎ (o ≡ Ordering.gt)

insert_key-past :
    (k v j w : String) (rest : List (String × String))
    → NotLess (compare k j)
    → insert_key (k, v) ((j, w) ∷ rest) ≡ (j, w) ∷ insert_key (k, v) rest
unfolding insert_key
insert_key-past k v j w rest (inl h) = rw (insert_key, h) refl
insert_key-past k v j w rest (inr h) = rw (insert_key, h) refl

insert_key-nil : (k v : String) → insert_key (k, v) [] ≡ (k, v) ∷ []
unfolding insert_key
insert_key-nil k v = refl

Ordering-cases : (o : Ordering) → (o ≡ Ordering.lt) ⊎ NotLess o
Ordering-cases Ordering.lt = inl refl
Ordering-cases Ordering.eq = inr (inl refl)
Ordering-cases Ordering.gt = inr (inr refl)

-- Putting in two keys, the smaller one first or last.
insert_key-Less :
    (a v b w : String) (rest : List (String × String))
    → Less a b
    → insert_key (a, v) (insert_key (b, w) rest) ≡ insert_key (b, w) (insert_key (a, v) rest)
insert_key-Less a v b w [] h =
    rw (insert_key-nil a v, insert_key-nil b w)
      (insert_key-lt a v b w [] h
        ∙ sym (
            insert_key-past b w a v [] (inr (Less-flip a b h))
            ∙ ap (λ xs. (a, v) ∷ xs) (insert_key-nil b w)))
insert_key-Less a v b w ((j, u) ∷ rest) h = elim (Ordering-cases (compare b j)) [
  | inl below ↦
      let first = Less-trans a b j h below in
      rw (insert_key-lt b w j u rest below, insert_key-lt a v j u rest first)
        (insert_key-lt a v b w ((j, u) ∷ rest) h
          ∙ sym (
              insert_key-past b w a v ((j, u) ∷ rest) (inr (Less-flip a b h))
              ∙ ap (λ xs. (a, v) ∷ xs) (insert_key-lt b w j u rest below)))
  | inr past ↦ elim (Ordering-cases (compare a j)) [
    | inl first ↦
        rw (insert_key-past b w j u rest past, insert_key-lt a v j u rest first)
          (insert_key-lt a v j u (insert_key (b, w) rest) first
            ∙ sym (
                insert_key-past b w a v ((j, u) ∷ rest) (inr (Less-flip a b h))
                ∙ ap (λ xs. (a, v) ∷ xs) (insert_key-past b w j u rest past)))
    | inr later ↦
        rw (insert_key-past b w j u rest past, insert_key-past a v j u rest later)
          (insert_key-past a v j u (insert_key (b, w) rest) later
            ∙ ap (λ xs. (j, u) ∷ xs) (insert_key-Less a v b w rest h)
            ∙ sym (insert_key-past b w j u (insert_key (a, v) rest) past))
  ]
]

insert_key-swap :
    (a v b w : String) (rest : List (String × String))
    → a ≢ b
    → insert_key (a, v) (insert_key (b, w) rest) ≡ insert_key (b, w) (insert_key (a, v) rest)
insert_key-swap a v b w rest n = elim (compare-ne a b n) [
  | inl h ↦ insert_key-Less a v b w rest h
  | inr h ↦ sym (insert_key-Less b w a v rest h)
]

-- One value up to the order of the keys of its objects, at every depth; keys that change places differ.
mutual
  pub data Reordered : Json → Json → Type 0 where
    leaf : (v : Json) → Reordered v v
    items : {xs ys : Items} → ReorderedItems xs ys → Reordered (arr xs) (arr ys)
    keys : {fs gs : Fields} → ReorderedFields fs gs → Reordered (obj fs) (obj gs)

  pub data ReorderedItems : Items → Items → Type 0 where
    no_items : ReorderedItems nil nil
    item :
        {v w : Json} {xs ys : Items}
        → Reordered v w
        → ReorderedItems xs ys
        → ReorderedItems (cons v xs) (cons w ys)

  pub data ReorderedFields : Fields → Fields → Type 0 where
    no_fields : ReorderedFields end end
    one_field :
        {k : String} {v w : Json} {fs gs : Fields}
        → Reordered v w
        → ReorderedFields fs gs
        → ReorderedFields (field k v fs) (field k w gs)
    swap :
        {k j : String} {v w : Json} {fs : Fields}
        → k ≢ j
        → ReorderedFields (field k v (field j w fs)) (field j w (field k v fs))
    after :
        {fs gs hs : Fields} → ReorderedFields fs gs → ReorderedFields gs hs → ReorderedFields fs hs

mutual
  unfolding stable_stringify

  stable_value-Reordered : {v w : Json} → Reordered v w → stable_stringify v ≡ stable_stringify w
  stable_value-Reordered (leaf v) = refl
  stable_value-Reordered (items r) =
      ap (λ ss. template ("[" ∷ join "," ss ∷ "]" ∷ [])) (stable_items-Reordered r)
  stable_value-Reordered (keys r) =
      ap (λ es. template ("{" ∷ join "," (map entry es) ∷ "}" ∷ [])) (stable_entries-Reordered r)

  stable_items-Reordered :
      {xs ys : Items} → ReorderedItems xs ys → stable_items xs ≡ stable_items ys
  stable_items-Reordered no_items = refl
  stable_items-Reordered (item r rs) = rw (stable_value-Reordered r, stable_items-Reordered rs) refl

  stable_entries-Reordered :
      {fs gs : Fields} → ReorderedFields fs gs → stable_entries fs ≡ stable_entries gs
  stable_entries-Reordered no_fields = refl
  stable_entries-Reordered (one_field r rs) =
      rw (stable_value-Reordered r, stable_entries-Reordered rs) refl
  stable_entries-Reordered (swap {k = k} {j = j} {v = v} {w = w} {fs = fs} n) =
      insert_key-swap k (stable_stringify v) j (stable_stringify w) (stable_entries fs) n
  stable_entries-Reordered (after r s) = stable_entries-Reordered r ∙ stable_entries-Reordered s

-- The canonical form is one for all orders of the keys: two values that differ only in the order of the
-- keys of their objects, at any depth, have the same canonical form.
pub stable_stringify-Reordered :
    (v w : Json) → Reordered v w → stable_stringify v ≡ stable_stringify w
stable_stringify-Reordered v w r = stable_value-Reordered r
