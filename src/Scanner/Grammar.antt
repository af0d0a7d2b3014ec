-- ===== src/Scanner/Grammar.antt =====
-- The lexical grammar of src/langspec.txt and src/scanner.h as predicates on lexemes, stated without
-- the scanner: which byte strings spell a token of which type.
use lemon.Base.{
  bytes_eq, ℕ, ◌≡◌, subst, true, not, ◌⊎◌, none, some, List, [], ◌∷◌, codes, Bool-cases, inl, inr,
}
use lemon.Keywords.Correct.{find_keyword}
use lemon.Keywords.Table.{KvPair, keywords}
use lemon.Scanner.Chars.{is_digit, is_letter, is_letter_digit, is_space_eof, Passes}
use lemon.Scanner.{in_string}
use lemon.Token.{
  TokenType, invalid, eof, identifier, literal_int, literal_float, literal_str, semicolon,
  left_bracket, right_bracket, left_paren, right_paren, left_brace, right_brace, dot, tilde, comma,
  colon, equal, equal_equal, not_equal, logical_not, logical_and, logical_or, bitwise_not,
  ampersand, bitwise_or, bitwise_xor, lshift, rshift, greater, geq, less, leq, plus, minus, star,
  slash, modulo,
}

-- A letter or underscore, and letters, underscores and digits behind it.
abbrev pub IsWord : List ℕ → Type 0
IsWord [] = ⊥
IsWord (c ∷ cs) = (is_letter c ≡ true) × Passes is_letter_digit cs

-- One or more digits.
abbrev pub IsInt : List ℕ → Type 0
IsInt [] = ⊥
IsInt (c ∷ cs) = (is_digit c ≡ true) × Passes is_digit cs

-- Digits, a dot, digits; the digits on either side may be missing.
abbrev pub IsFraction : List ℕ → Type 0
IsFraction [] = ⊥
IsFraction (c ∷ cs) = ((c ≡ b'.') × Passes is_digit cs) ⊎ ((is_digit c ≡ true) × IsFraction cs)

-- A digit first, and one dot further on.
abbrev pub IsFloat : List ℕ → Type 0
IsFloat [] = ⊥
IsFloat (c ∷ cs) = (is_digit c ≡ true) × IsFraction cs

-- Which lexemes a token type has. All the types that no clause names are keywords.
abbrev pub Spelled : TokenType → List ℕ → Type 0
Spelled invalid w = Passes (λ c. not (is_space_eof c)) w
Spelled eof w = w ≡ []
Spelled identifier w = IsWord w × (find_keyword keywords w ≡ none)
Spelled literal_int w = IsInt w
Spelled literal_float w = IsFloat w
Spelled literal_str w = Passes in_string w
Spelled semicolon w = w ≡ codes ";"
Spelled left_bracket w = w ≡ codes "["
Spelled right_bracket w = w ≡ codes "]"
Spelled left_paren w = w ≡ codes "("
Spelled right_paren w = w ≡ codes ")"
Spelled left_brace w = w ≡ codes "{"
Spelled right_brace w = w ≡ codes "}"
Spelled dot w = w ≡ codes "."
Spelled tilde w = w ≡ codes "~"
Spelled comma w = w ≡ codes ","
Spelled colon w = w ≡ codes ":"
Spelled equal w = w ≡ codes "="
Spelled equal_equal w = w ≡ codes "=="
Spelled not_equal w = w ≡ codes "!="
Spelled logical_not w = w ≡ codes "!"
Spelled logical_and w = w ≡ codes "&&"
Spelled logical_or w = w ≡ codes "||"
Spelled bitwise_not w = w ≡ codes "'"
Spelled ampersand w = w ≡ codes "&"
Spelled bitwise_or w = w ≡ codes "|"
Spelled bitwise_xor w = w ≡ codes "^"
Spelled lshift w = w ≡ codes "<<"
Spelled rshift w = w ≡ codes ">>"
Spelled greater w = w ≡ codes ">"
Spelled geq w = w ≡ codes ">="
Spelled less w = w ≡ codes "<"
Spelled leq w = w ≡ codes "<="
Spelled plus w = w ≡ codes "+"
Spelled minus w = w ≡ codes "-"
Spelled star w = w ≡ codes "*"
Spelled slash w = w ≡ codes "/"
Spelled modulo w = w ≡ codes "%"
Spelled t w = IsWord w × (find_keyword keywords w ≡ some t)

-- The keyword list has keyword types only.
abbrev KeywordTypes : List KvPair → Type 0
KeywordTypes [] = Unit {0}
KeywordTypes (p ∷ ps) =
    ((w : List ℕ) → IsWord w → find_keyword keywords w ≡ some p.typ → Spelled p.typ w)
    × KeywordTypes ps

keywords-KeywordTypes : KeywordTypes keywords
unfolding keywords
keywords-KeywordTypes = (
  λ w i e. (i, e),
  (
    λ w i e. (i, e),
    (
      λ w i e. (i, e),
      (
        λ w i e. (i, e),
        (
          λ w i e. (i, e),
          (
            λ w i e. (i, e),
            (
              λ w i e. (i, e),
              (
                λ w i e. (i, e),
                (
                  λ w i e. (i, e),
                  (
                    λ w i e. (i, e),
                    (
                      λ w i e. (i, e),
                      (
                        λ w i e. (i, e),
                        (
                          λ w i e. (i, e),
                          (
                            λ w i e. (i, e),
                            (
                              λ w i e. (i, e),
                              (
                                λ w i e. (i, e),
                                (
                                  λ w i e. (i, e),
                                  (
                                    λ w i e. (i, e),
                                    (
                                      λ w i e. (i, e),
                                      (
                                        λ w i e. (i, e),
                                        (
                                          λ w i e. (i, e),
                                          (
                                            λ w i e. (i, e),
                                            (
                                              λ w i e. (i, e),
                                              (λ w i e. (i, e), (λ w i e. (i, e), tt)),
                                            ),
                                          ),
                                        ),
                                      ),
                                    ),
                                  ),
                                ),
                              ),
                            ),
                          ),
                        ),
                      ),
                    ),
                  ),
                ),
              ),
            ),
          ),
        ),
      ),
    ),
  ),
)

find-Spelled :
    (ps : List KvPair) (w v : List ℕ) (t : TokenType)
    → KeywordTypes ps
    → find_keyword ps v ≡ some t
    → IsWord w
    → find_keyword keywords w ≡ some t
    → Spelled t w
unfolding find_keyword
find-Spelled [] w v t k e i found = absurd (cc)
find-Spelled (p ∷ ps) w v t k e i found = elim (Bool-cases (bytes_eq p.name v)) [
  | inl same ↦
      let h : some p.typ ≡ some t = rw same at e in
      let typ : p.typ ≡ t = cc in subst (λ u. Spelled u w) typ (k.0 w i (cc))
  | inr other ↦ find-Spelled ps w v t k.1 (rw other at e) i found
]

-- A word that the list has is spelled as its keyword.
pub keyword-Spelled :
    (w : List ℕ) (t : TokenType) → IsWord w → find_keyword keywords w ≡ some t → Spelled t w
keyword-Spelled w t i found = find-Spelled keywords w w t keywords-KeywordTypes found i found
