-- ===== src/Scanner/Chars.antt =====
-- The character tests of src/scanner.c, with `isdigit`, `isalpha` and `isspace` of the C locale, and
-- the loop `while (test(*p)) p++` that its consumers share.
use lemon.Token.{deref}
use lemon.Base.{
  ◌<◌, ◌≢◌, ℕ, zero, suc, ◌≤◌, ◌≡◌, refl, Bool, true, false, not, ◌&&◌, ◌||◌, List, [], ◌∷◌, leb,
  ◌==◌, if◌then◌else◌, length, take, drop, arith, Bool-cases, inl, inr,
}

unfoldable pub is_digit : ℕ → Bool
is_digit c = leb b'0' c && leb c b'9'

-- `IsLetter`
unfoldable pub is_letter : ℕ → Bool
is_letter c = (leb b'A' c && leb c b'Z') || (leb b'a' c && leb c b'z') || c == b'_'

-- `IsLetterDigit`
unfoldable pub is_letter_digit : ℕ → Bool
unfolding is_letter is_digit
is_letter_digit c = is_letter c || is_digit c

-- `isspace`, which is also the range `'\t' ... '\r'` with `' '` of the scanner's switch
unfoldable pub is_space : ℕ → Bool
is_space c = (leb 9 c && leb c 13) || c == b' '

-- `IsSpaceEOF`
unfoldable pub is_space_eof : ℕ → Bool
unfolding is_space
is_space_eof c = is_space c || c == 0

-- The number of characters that `while (test(*p)) p++` passes. Every test that is used fails at the
-- terminating NUL, which is the end of the list.
unfoldable pub span : (ℕ → Bool) → List ℕ → ℕ
span test [] = 0
span test (c ∷ cs) = if test c then suc (span test cs) else 0

-- All the characters of a string pass a test.
abbrev pub Passes : (ℕ → Bool) → List ℕ → Type 0
Passes test [] = Unit {0}
Passes test (c ∷ cs) = (test c ≡ true) × Passes test cs

module _ (test : ℕ → Bool) where
  pub span-le-length : (cs : List ℕ) → span test cs ≤ length cs
  unfolding span
  span-le-length [] = omega arith
  span-le-length (c ∷ cs) = ground (arith, span-le-length cs)

  pub Passes-take-span : (cs : List ℕ) → Passes test (take (span test cs) cs)
  unfolding span
  Passes-take-span [] = tt
  Passes-take-span (c ∷ cs) = elim (Bool-cases (test c)) [
    | inl yes_test ↦ rw yes_test (yes_test, Passes-take-span cs)
    | inr no_test ↦ rw no_test tt
  ]

pub span_mono :
    (p q : ℕ → Bool) (cs : List ℕ) → ((c : ℕ) → p c ≡ true → q c ≡ true) → span p cs ≤ span q cs
unfolding span
span_mono p q [] h = omega arith
span_mono p q (c ∷ cs) h = ground (arith, h c, span_mono p q cs h)

-- The number of line feeds in a text.
unfoldable pub newlines : List ℕ → ℕ
newlines [] = 0
newlines (c ∷ cs) = if c == b'\n' then suc (newlines cs) else newlines cs

pub newlines_of_Passes :
    (test : ℕ → Bool) (w : List ℕ)
    → ((c : ℕ) → test c ≡ true → c ≢ b'\n')
    → Passes test w
    → newlines w ≡ 0
unfolding newlines
newlines_of_Passes test [] h p = refl
newlines_of_Passes test (c ∷ w) h p = ground (arith, h c p.0, newlines_of_Passes test w h p.1)

pub newlines-cons : (c : ℕ) (w : List ℕ) → c ≢ b'\n' → newlines (c ∷ w) ≡ newlines w
unfolding newlines
newlines-cons c w h = ground arith

pub newlines-take_one :
    (text : List ℕ)
    → 0 < length text
    → newlines (take 1 text) ≡ (if deref text == b'\n' then 1 else 0)
unfolding newlines
newlines-take_one [] h = absurd (omega arith)
newlines-take_one (c ∷ cs) h = refl

pub digit-ne_newline : (c : ℕ) → is_digit c ≡ true → c ≢ b'\n'
unfolding is_digit
digit-ne_newline c h = ground arith

pub letter-ne_newline : (c : ℕ) → is_letter c ≡ true → c ≢ b'\n'
unfolding is_letter
letter-ne_newline c h = ground arith

pub letter_digit-ne_newline : (c : ℕ) → is_letter_digit c ≡ true → c ≢ b'\n'
unfolding is_letter_digit
letter_digit-ne_newline c h = ground arith

pub not_space-ne_newline : (c : ℕ) → is_space c ≡ false → c ≢ b'\n'
unfolding is_space
not_space-ne_newline c h = ground arith

pub not_space_eof-ne_newline : (c : ℕ) → not (is_space_eof c) ≡ true → c ≢ b'\n'
unfolding is_space_eof
not_space_eof-ne_newline c h = ground arith

pub newlines-take-suc :
    (n : ℕ) (text : List ℕ)
    → deref text ≢ b'\n'
    → newlines (take (suc n) text) ≡ newlines (take n (drop 1 text))
unfolding newlines
newlines-take-suc zero [] h = refl
newlines-take-suc (suc n) [] h = refl
newlines-take-suc n (c ∷ cs) h = newlines-cons c (take n cs) h
