-- ===== src/Prelude/Lists.antt =====
-- Lists over the native numbers, association lists in insertion order (JavaScript's `Map`, `Set`
-- and plain objects), and the text helpers that template literals and `includes` stand on.
use Prim.Native.Nat.{ℕ, zero, suc, ◌+◌, ◌-◌, ◌≤◌}
use Prim.Native.String.{String}
use mathlib.Core.Path.{◌≡◌, refl, sym, ap, ◌∙◌}
use mathlib.Core.Logic.{inl, inr}
use mathlib.Core.Bool.{Bool, true, false, ◌&&◌, ◌||◌}
use mathlib.Core.Option.{Option, none, some}
use mathlib.Core.List.{List, [], ◌∷◌, ◌++◌, map, reverse, reverse-cons}
use native.Mathlib.Omega.{arith}
use text.Mathlib.Text.{◌==◌, find?}
use assurance_toto.Prelude.Tests.{leb, leb→le, Bool-cases, if◌then◌else◌}

module _ {ℓ} {A : Type ℓ} where
  abbrev pub length : List A → ℕ
  length [] = 0
  length (x ∷ xs) = suc (length xs)

  abbrev pub take : ℕ → List A → List A
  take zero xs = []
  take (suc n) [] = []
  take (suc n) (x ∷ xs) = x ∷ take n xs

  abbrev pub drop : ℕ → List A → List A
  drop zero xs = xs
  drop (suc n) [] = []
  drop (suc n) (x ∷ xs) = drop n xs

  abbrev pub all : (A → Bool) → List A → Bool
  all p [] = true
  all p (x ∷ xs) = p x && all p xs

  abbrev pub any : (A → Bool) → List A → Bool
  any p [] = false
  any p (x ∷ xs) = p x || any p xs

  abbrev pub select : (A → Bool) → List A → List A
  select p [] = []
  select p (x ∷ xs) = let rest = select p xs in if p x then x ∷ rest else rest

  pub length-append : (xs ys : List A) → length (xs ++ ys) ≡ length xs + length ys
  length-append [] ys = omega arith
  length-append (x ∷ xs) ys = omega (arith, length-append xs ys)

  abbrev pub last? : List A → Option A
  last? [] = none
  last? (x ∷ []) = some x
  last? (x ∷ y ∷ xs) = last? (y ∷ xs)

  pub last?-snoc : (xs : List A) (y : A) → last? (xs ++ y ∷ []) ≡ some y
  last?-snoc [] y = refl
  last?-snoc (x ∷ []) y = refl
  last?-snoc (x ∷ z ∷ xs) y = last?-snoc (z ∷ xs) y

  pub length-reverse : (xs : List A) → length (reverse xs) ≡ length xs
  length-reverse [] = refl
  length-reverse (x ∷ xs) =
      rw (reverse-cons x xs)
        (length-append (reverse xs) (x ∷ []) ∙ omega (arith, length-reverse xs))

  drop-nil : (n : ℕ) → drop n [] ≡ []
  drop-nil zero = refl
  drop-nil (suc n) = refl

  take_all : (n : ℕ) (xs : List A) → length xs ≤ n → take n xs ≡ xs
  take_all zero [] h = refl
  take_all zero (x ∷ xs) h = absurd (omega (arith, h))
  take_all (suc n) [] h = refl
  take_all (suc n) (x ∷ xs) h = ap (λ zs. x ∷ zs) (take_all n xs (omega (arith, h)))

  take-append_less : (n : ℕ) (xs ys : List A) → n ≤ length xs → take n (xs ++ ys) ≡ take n xs
  take-append_less zero xs ys h = refl
  take-append_less (suc n) [] ys h = absurd (omega (arith, h))
  take-append_less (suc n) (x ∷ xs) ys h =
      ap (λ zs. x ∷ zs) (take-append_less n xs ys (omega (arith, h)))

  -- The last `n`, newest first.
  pub take-reverse : (n : ℕ) (xs : List A) → take n (reverse xs) ≡ reverse (drop (length xs - n) xs)
  take-reverse n [] = take_all n [] (omega arith) ∙ ap reverse (sym (drop-nil (0 - n)))
  take-reverse n (x ∷ xs) = elim (Bool-cases (leb n (length xs))) [
    | inl some_left ↦
        let less = leb→le n (length xs) some_left in
        let count : suc (length xs) - n ≡ suc (length xs - n) = omega (arith, less) in
        rw (reverse-cons x xs, count)
          (take-append_less n (reverse xs) (x ∷ [])
              (let same = length-reverse xs in omega (arith, same, less))
            ∙ take-reverse n xs)
    | inr whole ↦
        let more : suc (length xs) ≤ n = ground (arith, whole) in
        let count : suc (length xs) - n ≡ 0 = omega (arith, more) in
        rw count (
          take_all n (reverse (x ∷ xs))
            (let same = length-reverse (x ∷ xs) in omega (arith, same, more)))
  ]

  -- `a ?? b`
  abbrev pub or_else : Option A → A → A
  or_else none b = b
  or_else (some a) b = a

  abbrev pub is_some : Option A → Bool
  is_some none = false
  is_some (some a) = true

module _ {ℓ} {A B : Type ℓ} (f : A → B) where
  map-take : (n : ℕ) (xs : List A) → map f (take n xs) ≡ take n (map f xs)
  map-take zero xs = refl
  map-take (suc n) [] = refl
  map-take (suc n) (x ∷ xs) = ap (λ ys. f x ∷ ys) (map-take n xs)

  map-snoc : (xs : List A) (y : A) → map f (xs ++ y ∷ []) ≡ map f xs ++ f y ∷ []
  map-snoc [] y = refl
  map-snoc (x ∷ xs) y = ap (λ ys. f x ∷ ys) (map-snoc xs y)

  map-reverse : (xs : List A) → map f (reverse xs) ≡ reverse (map f xs)
  map-reverse [] = refl
  map-reverse (x ∷ xs) =
      rw (reverse-cons x xs, reverse-cons (f x) (map f xs))
        (map-snoc (reverse xs) x ∙ ap (λ ys. ys ++ f x ∷ []) (map-reverse xs))

  pub map-take-reverse :
      (n : ℕ) (xs : List A) → map f (take n (reverse xs)) ≡ take n (reverse (map f xs))
  map-take-reverse n xs = map-take n (reverse xs) ∙ ap (take n) (map-reverse xs)

-- `xs.includes(x)` and `set.has(x)`
unfoldable pub member : String → List String → Bool
member x [] = false
member x (y ∷ ys) = (y == x) || member x ys

-- `text.includes(piece)`
unfoldable pub includes : String → String → Bool
includes text piece = is_some (find? text piece)

-- A template literal, as the list of its pieces.
unfoldable pub template : List String → String
template [] = ""
template (s ∷ rest) = Prim.Native.String.◌++◌ s (template rest)

-- `xs.join(sep)`
unfoldable pub join : String → List String → String
join sep [] = ""
join sep (s ∷ []) = s
join sep (s ∷ t ∷ rest) =
    Prim.Native.String.◌++◌ s (Prim.Native.String.◌++◌ sep (join sep (t ∷ rest)))

module _ {ℓ} {V : Type ℓ} where
  -- `map.get(key)`
  unfoldable pub lookup : (key : String) (entries : List (String × V)) → Option V
  lookup key [] = none
  lookup key ((name, value) ∷ entries) = if name == key then some value else lookup key entries

  -- `map.set(key, value)`: a key that is there keeps its place.
  unfoldable pub insert :
      (key : String) (value : V) (entries : List (String × V)) → List (String × V)
  insert key value [] = (key, value) ∷ []
  insert key value ((name, old) ∷ entries) =
      let others = insert key value entries in
      if name == key then (name, value) ∷ entries else (name, old) ∷ others
