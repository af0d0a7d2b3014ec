-- ===== src/Scanner/Progress.antt =====
-- Every case of the switch of `Scan` in src/scanner.c.
use lemon.Base.{
  ◌∙◌, ==_iff, ℕ, ◌<◌, ◌≡◌, refl, sym, ap, ◌≢◌, subst, Bool, true, false, not, ◌||◌, Option, none,
  some, List, [], ◌∷◌, ◌==◌, if◌then◌else◌, length, drop, arith, Bool-cases, Option-cases, inl, inr,
}
use lemon.Scanner.Chars.{
  newlines, newlines-cons, not_space-ne_newline, is_digit, is_letter, is_space, is_space_eof, span,
}
use lemon.Scanner.Grammar.{Spelled}
use lemon.Scanner.{
  Scanner, consume, peek, consume_if_peek, consume_space, consume_comment, singles, case_of,
  step_word, step_operator, step_case, step,
}
use lemon.Token.{
  TokenType, deref, equal, equal_equal, not_equal, logical_not, logical_and, logical_or, ampersand,
  bitwise_or, lshift, rshift, greater, geq, less, leq,
}
use lemon.Scanner.Literals.{consume_string-Steps}
use lemon.Scanner.Numbers.{consume_number-Steps}
use lemon.Scanner.Steps.{
  Steps, consume-Steps, consume_space-Steps, consume_comment-Steps, consume_invalid-Steps,
}
use lemon.Scanner.Words.{consume_word-Steps}

-- The characters after which the scanner looks one ahead.
abbrev pub is_operator : ℕ → Bool
is_operator c = c == b'=' || c == b'!' || c == b'&' || c == b'|' || c == b'<' || c == b'>'

-- An assertion fails in a round only at such a character with the end of the text behind it.
abbrev pub Cut : List ℕ → Type 0
Cut text = (is_operator (deref text) ≡ true) × (deref (drop 1 text) ≡ 0)

-- What holds of the state after a round, and of the text if an assertion fails in it.
abbrev pub Ensures : Scanner → Option Scanner → Type 0
Ensures s none = Cut s.pos.text
Ensures s (some s') = Steps s s'

-- A test in the switch: both ways are proved with its outcome at hand.
if-Steps :
    (s : Scanner) (b : Bool) {x y : Scanner}
    → (b ≡ true → Steps s x)
    → (b ≡ false → Steps s y)
    → Steps s (if b then x else y)
if-Steps s true f g = f refl
if-Steps s false f g = g refl

if-Ensures :
    (s : Scanner) (b : Bool) (x y : Option Scanner)
    → (b ≡ true → Ensures s x)
    → (b ≡ false → Ensures s y)
    → Ensures s (if b then x else y)
if-Ensures s true x y f g = f refl
if-Ensures s false x y f g = g refl

newlines-nil : newlines [] ≡ 0
unfolding newlines
newlines-nil = refl

is_operator-facts : (c : ℕ) → is_operator c ≡ true → (0 < c) × (c ≢ b'\n')
is_operator-facts c h = (ground arith, ground arith)

span_pos :
    (c : ℕ) (cs : List ℕ)
    → is_space c ≡ false
    → c ≢ 0
    → 0 < span (λ d. not (is_space_eof d)) (c ∷ cs)
unfolding span is_space_eof
span_pos c cs h z = ground arith

two_chars : (cs : List ℕ) (d : ℕ) → deref cs ≡ d → 0 < d → (r : List ℕ) × (cs ≡ d ∷ r)
two_chars [] d e h = absurd (omega arith)
two_chars (c ∷ cs) d e h = (cs, rw e)

-- The rows of the one-character cases spell their characters.
abbrev Rows : List (ℕ × TokenType) → Type 0
Rows [] = Unit {0}
Rows ((d, t) ∷ rows) = Spelled t (d ∷ []) × Rows rows

singles-Rows : Rows singles
unfolding singles
singles-Rows = (
  refl,
  (
    refl,
    (
      refl,
      (
        refl,
        (
          refl,
          (
            refl,
            (
              refl,
              (
                refl,
                (refl, (refl, (refl, (refl, (refl, (refl, (refl, (refl, (refl, (refl, tt)))))))))),
              ),
            ),
          ),
        ),
      ),
    ),
  ),
)

case_of-Spelled :
    (c : ℕ) (rows : List (ℕ × TokenType)) (t : TokenType)
    → Rows rows
    → case_of c rows ≡ some t
    → Spelled t (c ∷ [])
unfolding case_of
case_of-Spelled c [] t r h = absurd (cc)
case_of-Spelled c ((d, u) ∷ rows) t r h = elim (Bool-cases (c == d)) [
  | inl same ↦
      let k : some u ≡ some t = rw same at h in
      let typ : u ≡ t = cc in subst (λ v. Spelled v (c ∷ [])) typ (rw ((==_iff c d).0 same) r.0)
  | inr other ↦ case_of-Spelled c rows t r.1 (rw other at h)
]

module _ (s : Scanner) (c : ℕ) (cs : List ℕ) (e : s.pos.text ≡ c ∷ cs) where
  nonempty : 0 < length s.pos.text
  nonempty = rw e (omega arith)

  one-Steps : (t : TokenType) → c ≢ b'\n' → Spelled t (c ∷ []) → Steps s (consume s t 1)
  one-Steps t flat sp =
      consume-Steps s t 1 (omega arith) nonempty (rw e sp)
        (rw e (newlines-cons c [] flat ∙ newlines-nil))

  two-Steps :
      (t : TokenType) (d : ℕ)
      → (peek s == d) ≡ true
      → is_operator c ≡ true
      → is_operator d ≡ true
      → Spelled t (c ∷ d ∷ [])
      → Steps s (consume s t 2)
  unfolding peek
  two-Steps t d h oc od sp =
      let e' : deref cs ≡ d = rw e at ((==_iff _ _).0 h) in
      let (r, e'') = two_chars cs d e' (is_operator-facts d od).0 in
      consume-Steps s t 2 (omega arith) (rw (e, e'') (omega arith)) (rw (e, e'') sp) (
        rw (e, e'')
          (newlines-cons c (d ∷ []) (is_operator-facts c oc).1
            ∙ newlines-cons d [] (is_operator-facts d od).1
            ∙ newlines-nil))

  consume_if_peek-Ensures :
      (next : ℕ) (a b : TokenType)
      → is_operator next ≡ true
      → Spelled a (c ∷ next ∷ [])
      → Spelled b (c ∷ [])
      → is_operator c ≡ true
      → Ensures s (consume_if_peek s next a b)
  unfolding consume_if_peek peek
  consume_if_peek-Ensures next a b pos sa sb o =
      if-Ensures s (peek s == 0) _ _ (λ h. (rw e o, (==_iff _ 0).0 h))
        (λ _.
          if-Steps s (peek s == next) (λ h. two-Steps a next h o pos sa)
            (λ _. one-Steps b (is_operator-facts c o).1 sb))

  step_word-Steps : is_space c ≡ false → c ≢ 0 → Steps s (step_word c s)
  unfolding step_word
  step_word-Steps blank nul =
      if-Steps s (is_digit c) (λ d. consume_number-Steps s c cs e d)
        (λ _.
          if-Steps s (c == b'"') (λ q. consume_string-Steps s cs (rw ((==_iff c b'"').0 q) at e))
            (λ _.
              if-Steps s (is_letter c) (λ l. consume_word-Steps s c cs e l)
                (λ _. consume_invalid-Steps s (rw e (span_pos c cs blank nul)))))

  -- a case whose label is `d`: the character is known there
  at_label :
      (d : ℕ) (x y : Option Scanner)
      → (c ≡ d → Ensures s x)
      → Ensures s y
      → Ensures s (if c == d then x else y)
  at_label d x y f g = if-Ensures s (c == d) x y (λ h. f ((==_iff c d).0 h)) (λ _. g)

  peek_case :
      (d next : ℕ) (a b : TokenType)
      → c ≡ d
      → is_operator next ≡ true
      → Spelled a (d ∷ next ∷ [])
      → Spelled b (d ∷ [])
      → is_operator d ≡ true
      → Ensures s (consume_if_peek s next a b)
  peek_case d next a b h pos sa sb o =
      consume_if_peek-Ensures next a b pos (rw h sa) (rw h sb) (rw h o)

  shift_case :
      (d : ℕ) (shift a b : TokenType)
      → c ≡ d
      → Spelled shift (d ∷ d ∷ [])
      → Spelled a (d ∷ b'=' ∷ [])
      → Spelled b (d ∷ [])
      → is_operator d ≡ true
      → Ensures s (if peek s == d then some (consume s shift 2) else consume_if_peek s b'=' a b)
  shift_case d shift a b h ss sa sb o =
      if-Ensures s (peek s == d) _ _ (λ p. two-Steps shift d p (rw h o) o (rw h ss))
        (λ _. peek_case d b'=' a b h refl sa sb o)

  operator-Ensures : is_space c ≡ false → c ≢ 0 → Ensures s (step_operator c s)
  unfolding step_operator
  operator-Ensures blank nul =
      at_label b'=' _ _ (λ h. peek_case b'=' b'=' equal_equal equal h refl refl refl refl)
        (at_label b'!' _ _ (λ h. peek_case b'!' b'=' not_equal logical_not h refl refl refl refl)
          (at_label b'&' _ _ (λ h. peek_case b'&' b'&' logical_and ampersand h refl refl refl refl)
            (at_label b'|' _ _
              (λ h. peek_case b'|' b'|' logical_or bitwise_or h refl refl refl refl)
              (at_label b'<' _ _ (λ h. shift_case b'<' lshift leq less h refl refl refl refl)
                (at_label b'>' _ _ (λ h. shift_case b'>' rshift geq greater h refl refl refl refl)
                  (step_word-Steps blank nul))))))

  step_case-Ensures : is_space c ≡ false → c ≢ 0 → Ensures s (step_case (case_of c singles) c s)
  step_case-Ensures blank nul = elim (Option-cases (case_of c singles)) [
    | inl none_found ↦ rw none_found (unfold step_case in operator-Ensures blank nul)
    | inr (t, found) ↦ rw found (
        unfold step_case in
        one-Steps t (not_space-ne_newline c blank) (case_of-Spelled c singles t singles-Rows found))
  ]

  -- One round of the loop at a character other than NUL.
  pub step-Ensures : c ≢ 0 → Ensures s (step s)
  unfolding step
  step-Ensures nul =
      subst
        (λ d. Ensures s (
          if is_space d
          then some (consume_space s)
          else if d == b'#'
          then some (consume_comment s)
          else step_case (case_of d singles) d s))
        (sym (ap deref e))
        (if-Ensures s (is_space c) _ _ (λ _. consume_space-Steps s nonempty)
          (λ blank.
            if-Ensures s (c == b'#') _ _
              (λ h. consume_comment-Steps s nonempty (rw e ((==_iff c _).0 h)))
              (λ _. step_case-Ensures blank nul)))
