-- ===== src/Scanner/Numbers.antt =====
-- `ConsumeNumber` of src/scanner.c: the numeral that its loop passes.
use lemon.Base.{
  ◌∙◌, ℕ, suc, ◌≤◌, ◌≡◌, refl, Bool, true, false, ◌||◌, List, [], ◌∷◌, ◌==◌, if◌then◌else◌, length,
  take, arith, Bool-cases, inl, inr,
}
use lemon.Scanner.Chars.{
  newlines, newlines-cons, newlines_of_Passes, digit-ne_newline, is_digit, Passes,
}
use lemon.Scanner.Grammar.{IsFraction, Spelled}
use lemon.Scanner.{Scanner, number_loop, consume_number}
use lemon.Token.{literal_int, literal_float}
use lemon.Scanner.Steps.{Steps, consume-Steps}

number_loop-le-length : (seen : Bool) (cs : List ℕ) → (number_loop seen cs).0 ≤ length cs
unfolding number_loop
number_loop-le-length seen [] = omega arith
number_loop-le-length seen (c ∷ cs) = ground (arith, number_loop-le-length (seen || c == b'.') cs)

number_loop-seen :
    (cs : List ℕ)
    → ((number_loop true cs).1 ≡ true) × Passes is_digit (take (number_loop true cs).0 cs)
unfolding number_loop
number_loop-seen [] = (refl, tt)
number_loop-seen (c ∷ cs) = ground (arith, number_loop-seen cs)

-- before the dot: digits only if none was met, and a fraction if one was
abbrev Numeral : Bool → List ℕ → Type 0
Numeral false w = Passes is_digit w
Numeral true w = IsFraction w

number_loop-point :
    (c : ℕ) (cs : List ℕ)
    → (c == b'.') ≡ true
    → number_loop false (c ∷ cs) ≡ (suc (number_loop true cs).0, (number_loop true cs).1)
unfolding number_loop
number_loop-point c cs h = rw h

number_loop-digit :
    (c : ℕ) (cs : List ℕ)
    → (c == b'.') ≡ false
    → is_digit c ≡ true
    → number_loop false (c ∷ cs) ≡ (suc (number_loop false cs).0, (number_loop false cs).1)
unfolding number_loop
number_loop-digit c cs h d = rw (h, d)

number_loop-stop :
    (c : ℕ) (cs : List ℕ)
    → (c == b'.') ≡ false
    → is_digit c ≡ false
    → number_loop false (c ∷ cs) ≡ (0, false)
unfolding number_loop
number_loop-stop c cs h d = rw (h, d)

Numeral-cons : (b : Bool) (c : ℕ) (w : List ℕ) → is_digit c ≡ true → Numeral b w → Numeral b (c ∷ w)
Numeral-cons false c w d n = (d, n)
Numeral-cons true c w d n = inr (d, n)

number_loop-Numeral :
    (cs : List ℕ) → Numeral (number_loop false cs).1 (take (number_loop false cs).0 cs)
number_loop-Numeral [] = unfold number_loop in tt
number_loop-Numeral (c ∷ cs) = elim (Bool-cases (c == b'.')) [
  | inl point ↦
      rw (number_loop-point c cs point, (number_loop-seen cs).0)
        (inl (ground arith, (number_loop-seen cs).1))
  | inr other ↦ elim (Bool-cases (is_digit c)) [
    | inl d ↦ rw (number_loop-digit c cs other d) (Numeral-cons _ c _ d (number_loop-Numeral cs))
    | inr d ↦ rw (number_loop-stop c cs other d) tt
  ]
]

IsFraction-flat : (w : List ℕ) → IsFraction w → newlines w ≡ 0
IsFraction-flat [] f = absurd f
IsFraction-flat (c ∷ w) (inl (e, p)) =
    newlines-cons c w (omega arith) ∙ newlines_of_Passes is_digit w digit-ne_newline p
IsFraction-flat (c ∷ w) (inr (d, f)) =
    newlines-cons c w (digit-ne_newline c d) ∙ IsFraction-flat w f

Numeral-flat : (b : Bool) (w : List ℕ) → Numeral b w → newlines w ≡ 0
Numeral-flat false w n = newlines_of_Passes is_digit w digit-ne_newline n
Numeral-flat true w n = IsFraction-flat w n

Numeral-Spelled :
    (b : Bool) (c : ℕ) (w : List ℕ)
    → is_digit c ≡ true
    → Numeral b w
    → Spelled (if b then literal_float else literal_int) (c ∷ w)
Numeral-Spelled false c w d n = (d, n)
Numeral-Spelled true c w d n = (d, n)

-- The consumers' cases by the first character.
pub consume_number-Steps :
    (s : Scanner) (c : ℕ) (cs : List ℕ)
    → s.pos.text ≡ c ∷ cs
    → is_digit c ≡ true
    → Steps s (consume_number s)
unfolding consume_number
consume_number-Steps s c cs e d =
    consume-Steps s _ _ (omega arith) (rw e (omega (arith, number_loop-le-length false cs)))
      (rw e (Numeral-Spelled _ c _ d (number_loop-Numeral cs)))
      (rw e (newlines-cons c _ (digit-ne_newline c d) ∙ Numeral-flat _ _ (number_loop-Numeral cs)))
