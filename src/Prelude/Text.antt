-- ===== src/Prelude/Text.antt =====
-- The parts of JavaScript's `String` and of its regular expressions that the program uses, on the
-- characters of a text. Letters are the ASCII ones, as in every pattern of the source.
use Prim.Native.Nat.{ℕ, zero, suc, ◌+◌, ◌-◌, ◌*◌, ◌/◌, ◌%◌, ◌<◌}
use Prim.Native.Char.{Char, code, nul}
use Prim.Native.String.{String, [], ◌∷◌, ◌++◌, count}
use mathlib.Core.Path.{◌≡◌, refl, ap, ◌∙◌}
use mathlib.Core.Logic.{inl, inr}
use mathlib.Core.Bool.{Bool, true, ◌&&◌, ◌||◌}
use native.Mathlib.Omega.{arith}
use text.Mathlib.Text.{char_at?}
use text.Mathlib.TextLemmas.{cons-append, nil-append}
use assurance_toto.Prelude.Tests.{leb, leb→le, nat_eq, Bool-cases, if◌then◌else◌}
use assurance_toto.Prelude.Lists.{or_else}

-- A numeral between two bounds, as in `[a-f]`.
abbrev pub between : ℕ → ℕ → ℕ → Bool
between lo hi c = leb lo c && leb c hi

abbrev pub is_digit : ℕ → Bool
is_digit c = between b'0' b'9' c

abbrev pub is_lower_hex : ℕ → Bool
is_lower_hex c = is_digit c || between b'a' b'f' c

abbrev pub is_hex : ℕ → Bool
is_hex c = is_lower_hex c || between b'A' b'F' c

-- `^[...]*$` for a class of characters
unfoldable pub every_char : (ℕ → Bool) → String → Bool
every_char p [] = true
every_char p (c ∷ s) = p (code c) && every_char p s

-- `^[0-9a-f]{64}$`, and with the flag `i`
unfoldable pub is_lower_hex64 : String → Bool
unfolding every_char
is_lower_hex64 s = nat_eq (count s) 64 && every_char is_lower_hex s

unfoldable pub is_hex64 : String → Bool
unfolding every_char
is_hex64 s = nat_eq (count s) 64 && every_char is_hex s

lower_char : Char → Char
lower_char c =
    if between b'A' b'Z' (code c)
    then or_else (char_at? "abcdefghijklmnopqrstuvwxyz" (code c - b'A')) c
    else c

-- `s.toLowerCase()`
unfoldable pub to_lower_case : String → String
unfolding lower_char
to_lower_case [] = []
to_lower_case (c ∷ s) = lower_char c ∷ to_lower_case s

-- The white space that `trim` removes, within ASCII.
abbrev is_space : ℕ → Bool
is_space c = nat_eq c 32 || between 9 13 c

-- `s.trimStart()`
trim_start : String → String
trim_start [] = []
trim_start (c ∷ s) = let rest = trim_start s in if is_space (code c) then rest else c ∷ s

-- `s.trimEnd()`: a character stays if it is no space or something after it stays.
keep_unless_blank : Char → String → String
keep_unless_blank c [] = if is_space (code c) then [] else c ∷ []
keep_unless_blank c (d ∷ s) = c ∷ d ∷ s

trim_end : String → String
unfolding keep_unless_blank
trim_end [] = []
trim_end (c ∷ s) = keep_unless_blank c (trim_end s)

-- `s.trim()`
unfoldable pub trim : String → String
unfolding trim_start trim_end
trim s = trim_end (trim_start s)

-- `s.slice(0, n)`, in characters
unfoldable pub take_chars : ℕ → String → String
take_chars zero s = []
take_chars (suc n) [] = []
take_chars (suc n) (c ∷ s) = c ∷ take_chars n s

-- One digit, up to base 16.
digit : ℕ → String
digit d = or_else (char_at? "0123456789abcdef" d) nul ∷ []

decimal_from : ℕ → ℕ → String → String
unfolding digit
decimal_from zero n acc = acc
decimal_from (suc fuel) n acc =
    let here : String = digit (n % 10) ++ acc in
    let rest : String = decimal_from fuel (n / 10) here in if leb n 9 then here else rest

-- A number in decimal; `n + 1` rounds are enough, since each divides by ten.
unfoldable pub decimal : ℕ → String
unfolding decimal_from
decimal n = decimal_from (n + 1) n ""

-- The number that a text of digits writes, after the digits of `acc`.
unfoldable pub digits_value : ℕ → String → ℕ
digits_value acc [] = acc
digits_value acc (c ∷ s) = digits_value (acc * 10 + (code c - b'0')) s

digit_code : (d : ℕ) → d < 10 → code (or_else (char_at? "0123456789abcdef" d) nul) ≡ b'0' + d
digit_code zero h = refl
digit_code (suc zero) h = refl
digit_code (suc (suc zero)) h = refl
digit_code (suc (suc (suc zero))) h = refl
digit_code (suc (suc (suc (suc zero)))) h = refl
digit_code (suc (suc (suc (suc (suc zero))))) h = refl
digit_code (suc (suc (suc (suc (suc (suc zero)))))) h = refl
digit_code (suc (suc (suc (suc (suc (suc (suc zero))))))) h = refl
digit_code (suc (suc (suc (suc (suc (suc (suc (suc zero)))))))) h = refl
digit_code (suc (suc (suc (suc (suc (suc (suc (suc (suc zero))))))))) h = refl
digit_code (suc (suc (suc (suc (suc (suc (suc (suc (suc (suc d)))))))))) h =
    absurd (omega (arith, h))

digits_value-digit :
    (acc d : ℕ) (s : String)
    → d < 10
    → digits_value acc (digit d ++ s) ≡ digits_value (acc * 10 + d) s
unfolding digits_value digit
digits_value-digit acc d s h =
    let at = digit_code d h in
    rw (cons-append (or_else (char_at? "0123456789abcdef" d) nul) [] s, nil-append s)
      (ap (λ k. digits_value (acc * 10 + k) s) (omega (arith, at)))

digits_value-decimal_from :
    (fuel n : ℕ) (s : String) → n < fuel → digits_value 0 (decimal_from fuel n s) ≡ digits_value n s
unfolding decimal_from
digits_value-decimal_from zero n s h = absurd (omega (arith, h))
digits_value-decimal_from (suc fuel) n s h =
    let here : String = digit (n % 10) ++ s in
    let more = digits_value-decimal_from fuel (n / 10) here in
    let first = digits_value-digit 0 (n % 10) s (omega arith) in
    let later = digits_value-digit (n / 10) (n % 10) s (omega arith) in
    elim (Bool-cases (leb n 9)) [
      | inl small ↦
          let n_le = leb→le n 9 small in
          rw small (first ∙ ap (λ k. digits_value k s) (omega (arith, n_le)))
      | inr large ↦
          let whole : n / 10 * 10 + n % 10 ≡ n = omega arith in
          rw large (more (ground (arith, h, large)) ∙ later ∙ ap (λ k. digits_value k s) whole)
    ]

pub digits_value-decimal : (n : ℕ) → digits_value 0 (decimal n) ≡ n
unfolding decimal digits_value
digits_value-decimal n = digits_value-decimal_from (n + 1) n "" (omega arith)

digit_between : (k d : ℕ) → k ≡ b'0' + d → d < 10 → is_digit k ≡ true
digit_between k d e h = ground (arith, e, h)

every_char-digit :
    (d : ℕ) (s : String)
    → d < 10
    → every_char is_digit s ≡ true
    → every_char is_digit (digit d ++ s) ≡ true
unfolding every_char digit
every_char-digit d s h e =
    let is =
      digit_between (code (or_else (char_at? "0123456789abcdef" d) nul)) d (digit_code d h) h in
    rw (cons-append (or_else (char_at? "0123456789abcdef" d) nul) [] s, nil-append s, is, e) refl

every_char-decimal_from :
    (fuel n : ℕ) (s : String)
    → every_char is_digit s ≡ true
    → every_char is_digit (decimal_from fuel n s) ≡ true
unfolding decimal_from
every_char-decimal_from zero n s e = e
every_char-decimal_from (suc fuel) n s e =
    let here = every_char-digit (n % 10) s (omega arith) e in
    elim (Bool-cases (leb n 9)) [
      | inl small ↦ rw small here
      | inr large ↦ rw large (every_char-decimal_from fuel (n / 10) _ here)
    ]

pub every_char-decimal : (n : ℕ) → every_char is_digit (decimal n) ≡ true
unfolding decimal every_char
every_char-decimal n = every_char-decimal_from (n + 1) n "" refl

-- `String(x)` of a JavaScript number that is `n` hundredths, below 10^21.
unfoldable pub show_hundredths : ℕ → String
unfolding decimal digit
show_hundredths n =
    if nat_eq (n % 100) 0
    then decimal (n / 100)
    else if nat_eq (n % 10) 0
    then decimal (n / 100) ++ "." ++ digit (n / 10 % 10)
    else decimal (n / 100) ++ "." ++ digit (n / 10 % 10) ++ digit (n % 10)

-- The escape of one character in `JSON.stringify` of a text.
quote_char : Char → String
unfolding digit
quote_char c =
    let n : ℕ = code c in
    if nat_eq n 34
    then "\\\""
    else if nat_eq n 92
    then "\\\\"
    else if nat_eq n 8
    then "\\b"
    else if nat_eq n 9
    then "\\t"
    else if nat_eq n 10
    then "\\n"
    else if nat_eq n 12
    then "\\f"
    else if nat_eq n 13
    then "\\r"
    else if leb n 31
    then "\\u00" ++ digit (n / 16) ++ digit (n % 16)
    else c ∷ []

quote_chars : String → String
unfolding quote_char
quote_chars [] = ""
quote_chars (c ∷ s) = quote_char c ++ quote_chars s

-- `JSON.stringify` of a text
unfoldable pub quote : String → String
unfolding quote_chars
quote s = "\"" ++ quote_chars s ++ "\""

tests_quote : quote "a\"b" ≡ "\"a\\\"b\""
unfolding quote
tests_quote = refl

tests_show : show_hundredths 120005 ≡ "1200.05"
unfolding show_hundredths
tests_show = refl

tests_trim : to_lower_case (trim " aBc ") ≡ "abc"
unfolding trim to_lower_case
tests_trim = refl
