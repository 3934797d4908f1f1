-- ===== src/Dashboard/Markup.antt =====
-- The characters of a page that are HTML markup, and what puts none of them in
-- (`esc` of buzz-hermes-bridge/src/dashboard/dashboard.ts).
use assurance_toto.Dashboard.Sections.{unless_empty}
use Prim.Native.String
use text.Mathlib.TextLemmas.{cons-append, nil-append}
use assurance_toto.Prelude.{
  sym, every_char-decimal, decimal, is_digit, ◌∙◌, ℕ, String, code, Bool, true, not, ◌||◌, List, [],
  ◌∷◌, ◌≡◌, refl, ap, nat_eq, every_char, template, if◌then◌else◌, Bool-cases, inl, inr, arith,
  length, map,
}
use assurance_toto.Dashboard.{esc, false, replace_all, or_blank}

-- `<`, `>` and the two quotes: what opens or closes a tag or an attribute.
abbrev is_markup : ℕ → Bool
is_markup c = nat_eq c b'<' || nat_eq c b'>' || nat_eq c b'"' || nat_eq c b'\''

-- The markup characters of a text, in order.
unfoldable pub markup : String → String
markup String.[] = ""
markup (String.◌∷◌ c s) =
    let rest : String = markup s in if is_markup (code c) then String.◌∷◌ c rest else rest

pub markup-append : (s t : String) → markup (String.◌++◌ s t) ≡ String.◌++◌ (markup s) (markup t)
unfolding markup
markup-append String.[] t = rw (nil-append t, nil-append (markup t)) refl
markup-append (String.◌∷◌ c s) t = elim (Bool-cases (is_markup (code c))) [
  | inl m ↦
      rw (cons-append c s t, m, cons-append c (markup s) (markup t))
        (ap (String.◌∷◌ c) (markup-append s t))
  | inr m ↦ rw (cons-append c s t, m) (markup-append s t)
]

-- Two texts with the same markup, and two lists of pieces piece by piece.
pub record Same (s t : String) : Type 0 where
  pub at : markup s ≡ markup t

infixr 20 ◌&◌
pub data SameAll : List String → List String → Type 0 where
  done : SameAll [] []
  ◌&◌ : {s t : String} {ss ts : List String} → Same s t → SameAll ss ts → SameAll (s ∷ ss) (t ∷ ts)

pub same : {s : String} → Same s s
same = record { at = refl }

pub Same-template : {ss ts : List String} → SameAll ss ts → Same (template ss) (template ts)
unfolding template
Same-template done = same
Same-template (◌&◌ {s = s} {t = t} {ss = ss} {ts = ts} h hs) = record {
  at =
      let rest = Same-template hs in
      rw (markup-append s (template ss), markup-append t (template ts), h.at, rest.at) refl;
}

-- A text without markup.
abbrev pub IsPlain : String → Type 0
IsPlain s = markup s ≡ ""

abbrev is_not : ℕ → ℕ → Bool
is_not c k = not (nat_eq k c)

every_char-append :
    (p : ℕ → Bool) (s t : String)
    → every_char p s ≡ true
    → every_char p t ≡ true
    → every_char p (String.◌++◌ s t) ≡ true
unfolding every_char
every_char-append p String.[] t h k = rw (nil-append t) k
every_char-append p (String.◌∷◌ c s) t h k =
    rw (cons-append c s t) (let more = every_char-append p s t in ground (arith, h, k, more))

-- Replacing a character keeps out what neither the text nor the replacement has.
replace_all-lacks :
    (d c : ℕ) (by s : String)
    → every_char (is_not d) by ≡ true
    → every_char (is_not d) s ≡ true
    → every_char (is_not d) (replace_all c by s) ≡ true
unfolding every_char replace_all
replace_all-lacks d c by String.[] b h = refl
replace_all-lacks d c by (String.◌∷◌ k s) b h =
    let more = replace_all-lacks d c by s b in
    elim (Bool-cases (nat_eq (code k) c)) [
      | inl same ↦
          rw same (every_char-append (is_not d) by (replace_all c by s) b (ground (arith, h, more)))
      | inr other ↦ rw other (ground (arith, h, more))
    ]

-- A character that is replaced by a text without it is gone.
replace_all-gone :
    (c : ℕ) (by s : String)
    → every_char (is_not c) by ≡ true
    → every_char (is_not c) (replace_all c by s) ≡ true
unfolding every_char replace_all
replace_all-gone c by String.[] b = refl
replace_all-gone c by (String.◌∷◌ k s) b =
    let more = replace_all-gone c by s b in
    elim (Bool-cases (nat_eq (code k) c)) [
      | inl same ↦ rw same (every_char-append (is_not c) by (replace_all c by s) b more)
      | inr other ↦ rw other (ground (arith, other, more))
    ]

-- Texts without each of the four characters have no markup.
IsPlain-lacks :
    (s : String)
    → every_char (is_not b'<') s ≡ true
    → every_char (is_not b'>') s ≡ true
    → every_char (is_not b'"') s ≡ true
    → every_char (is_not b'\'') s ≡ true
    → IsPlain s
unfolding every_char markup
IsPlain-lacks String.[] a b c d = refl
IsPlain-lacks (String.◌∷◌ k s) a b c d =
    let none_here : is_markup (code k) ≡ false = ground (arith, a, b, c, d) in
    rw none_here (
      IsPlain-lacks s (ground (arith, a)) (ground (arith, b)) (ground (arith, c))
        (ground (arith, d)))

-- What `esc` prints has no markup, whatever the text.
pub esc-IsPlain : (s : String) → IsPlain (esc s)
unfolding esc every_char
esc-IsPlain s =
    let amp = replace_all b'&' "&amp;" s in
    let lt = replace_all b'<' "&lt;" amp in
    let gt = replace_all b'>' "&gt;" lt in
    let quot = replace_all b'"' "&quot;" gt in
    IsPlain-lacks _
      (replace_all-lacks b'<' b'\'' "&#39;" quot refl (
        replace_all-lacks b'<' b'"' "&quot;" gt refl
          (replace_all-lacks b'<' b'>' "&gt;" lt refl (replace_all-gone b'<' "&lt;" amp refl))))
      (replace_all-lacks b'>' b'\'' "&#39;" quot refl
        (replace_all-lacks b'>' b'"' "&quot;" gt refl (replace_all-gone b'>' "&gt;" lt refl)))
      (replace_all-lacks b'"' b'\'' "&#39;" quot refl (replace_all-gone b'"' "&quot;" gt refl))
      (replace_all-gone b'\'' "&#39;" quot refl)

IsPlain-digits : (s : String) → every_char is_digit s ≡ true → IsPlain s
unfolding every_char markup
IsPlain-digits String.[] h = refl
IsPlain-digits (String.◌∷◌ k s) h =
    let none_here : is_markup (code k) ≡ false = ground (arith, h) in
    rw none_here (IsPlain-digits s (ground (arith, h)))

pub Same-plain : {s t : String} → IsPlain s → IsPlain t → Same s t
Same-plain a b = record { at = a ∙ sym b }

pub Same-esc : (s t : String) → Same (esc s) (esc t)
Same-esc s t = Same-plain (esc-IsPlain s) (esc-IsPlain t)

pub Same-decimal : (m n : ℕ) → Same (decimal m) (decimal n)
Same-decimal m n =
    Same-plain (IsPlain-digits _ (every_char-decimal m)) (IsPlain-digits _ (every_char-decimal n))

pub Same-if :
    (b c : Bool) (s t : String)
    → IsPlain s
    → IsPlain t
    → Same (if b then s else t) (if c then s else t)
Same-if true true s t p q = same
Same-if true false s t p q = Same-plain p q
Same-if false true s t p q = Same-plain q p
Same-if false false s t p q = same

pub Same-or_blank : (b c : Bool) (s : String) → IsPlain s → Same (or_blank b s) (or_blank c s)
unfolding markup
Same-or_blank true true s p = same
Same-or_blank true false s p = Same-plain p refl
Same-or_blank false true s p = Same-plain refl p
Same-or_blank false false s p = same

module _ {A B : Type 0} {f : A → String} {g : B → String}
    (each : (x : A) (y : B) → Same (f x) (g y)) where
  rows : (xs : List A) (ys : List B) → length xs ≡ length ys → SameAll (map f xs) (map g ys)
  rows [] [] n = done
  rows [] (y ∷ ys) n = absurd (omega (arith, n))
  rows (x ∷ xs) [] n = absurd (omega (arith, n))
  rows (x ∷ xs) (y ∷ ys) n = each x y & rows xs ys (omega (arith, n))

  -- Rows that are each of one markup, as many on the one side as on the other.
  pub Same-rows :
      (xs : List A) (ys : List B)
      → length xs ≡ length ys
      → Same (template (map f xs)) (template (map g ys))
  Same-rows xs ys n = Same-template (rows xs ys n)

pub Same-unless_empty :
    {A : Type 0} (xs ys : List A) (n s t : String)
    → length xs ≡ length ys
    → Same s t
    → Same (unless_empty xs n s) (unless_empty ys n t)
Same-unless_empty [] [] n s t e h = same
Same-unless_empty [] (y ∷ ys) n s t e h = absurd (omega (arith, e))
Same-unless_empty (x ∷ xs) [] n s t e h = absurd (omega (arith, e))
Same-unless_empty (x ∷ xs) (y ∷ ys) n s t e h = h
