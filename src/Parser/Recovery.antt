-- ===== src/Parser/Recovery.antt =====
-- `Synchronize` of src/parser.c: it skips to the first sequence point, and reports the invalid tokens before it.
use lemon.Base.{
  ℕ, ◌+◌, ◌≡◌, inl, inr, refl, sym, ap, ◌∙◌, Bool, true, false, Bool-cases, Option, none, some,
  List, [], ◌∷◌, ◌++◌, arith, if◌then◌else◌,
}
use lemon.Parser.Actions.{
  Parser, Result, ok, thrown, aborted, past_eof, out_of_fuel, same_type, is_sequence_point,
  report_invalid_token, skip_token, sync_round, synchronize_from, synchronize,
}
use lemon.Parser.Runs.{HasEof, Ready}
use lemon.Parser.Tokens.{eof_is_sequence_point}
use lemon.Token.{Ptr, Token, invalid}

-- tokens of which none is a sequence point
abbrev pub Skipped : Bool → List Token → Type 0
Skipped level [] = Unit
Skipped level (t ∷ ts) = (is_sequence_point level t.type ≡ false) × Skipped level ts

-- how many of them are invalid
abbrev pub count_invalid : List Token → ℕ
count_invalid [] = 0
count_invalid (t ∷ ts) = (if same_type invalid t.type then 1 else 0) + count_invalid ts

-- an invalid token that has no lexeme, on which `ReportInvalidToken` stops
abbrev pub IsBare : Token → Type 0
IsBare t = (same_type invalid t.type ≡ true) × (t.view ≡ none)

-- how it ends on a list of tokens: at the first sequence point, with an error for each invalid token before
-- it; or at a bare invalid token before that
abbrev pub Skips : Bool → List Token → ℕ → Result (Unit {0}) → Type 0
Skips level tokens errors (ok _ s) =
    (before : List Token) × (tokens ≡ before ++ s.tok ∷ s.rest)
    × Skipped level before
    × (is_sequence_point level s.tok.type ≡ true)
    × (s.errors ≡ errors + count_invalid before)
Skips level tokens errors (thrown s) = ⊥
Skips level tokens errors aborted =
    (before : List Token) × (t : Token) × (after : List Token) × (tokens ≡ before ++ t ∷ after)
    × Skipped level before
    × IsBare t
Skips level tokens errors past_eof = ⊥
Skips level tokens errors out_of_fuel = ⊥

-- one token more in front
further :
    (level : Bool) (t : Token) (tokens : List Token) (errors errors' : ℕ)
    → is_sequence_point level t.type ≡ false
    → errors' ≡ errors + (if same_type invalid t.type then 1 else 0)
    → (r : Result (Unit {0})) → Skips level tokens errors' r
    → Skips level (t ∷ tokens) errors r
further level t tokens errors errors' on_way more (ok _ s) (before, e, skipped, stop, count) =
    (t ∷ before, ap (λ ts. t ∷ ts) e, (on_way, skipped), stop, omega (arith, count, more))
further level t tokens errors errors' on_way more (thrown s) h = h
further level t tokens errors errors' on_way more aborted (before, u, after, e, skipped, bare) =
    (t ∷ before, u, after, ap (λ ts. t ∷ ts) e, (on_way, skipped), bare)
further level t tokens errors errors' on_way more past_eof h = h
further level t tokens errors errors' on_way more out_of_fuel h = h

-- a round at a token that is no sequence point
round-Skips :
    (level : Bool) (t : Token) (rest : List Token) (errors : ℕ)
    → is_sequence_point level t.type ≡ false
    → (next : ℕ → Result (Unit {0})) → ((errors' : ℕ) → Skips level rest errors' (next errors'))
    → Skips level (t ∷ rest) errors (sync_round level t rest errors next)
unfolding sync_round skip_token report_invalid_token
round-Skips level t rest errors on_way next h = elim (Bool-cases (same_type invalid t.type)) [
  | inl i ↦ rw (on_way, i) (reported i t.view refl)
  | inr i ↦
      rw (on_way, i)
        (further level t rest errors errors on_way (rw i (omega arith)) (next errors) (h errors))
]
  where
    reported :
        same_type invalid t.type ≡ true
        → (v : Option Ptr) → t.view ≡ v
        → Skips level
            (t ∷ rest)
            errors
            (elim (elim v as (λ _. Option ℕ) [ none ↦ none | some p ↦ some (errors + 1) ])
              as (λ _. Result (Unit {0})) [ none ↦ aborted | some errors' ↦ next errors' ])
    reported i none e = ([], t, rest, refl, tt, (i, e))
    reported i (some p) e =
        further level t rest errors (errors + 1) on_way (rw i refl) (next (errors + 1))
          (h (errors + 1))

stops_here :
    (level : Bool) (t : Token) (rest : List Token) (errors : ℕ) (next : ℕ → Result (Unit {0}))
    → is_sequence_point level t.type ≡ true
    → Skips level (t ∷ rest) errors (sync_round level t rest errors next)
unfolding sync_round
stops_here level t rest errors next stop = rw stop ([], refl, tt, stop, omega arith)

synchronize_from-Skips :
    (level : Bool) (t : Token) (rest : List Token) (errors : ℕ)
    → HasEof (t ∷ rest)
    → Skips level (t ∷ rest) errors (synchronize_from level t rest errors)
unfolding synchronize_from
synchronize_from-Skips level t [] errors ends = elim (Bool-cases (is_sequence_point level t.type)) [
  | inl stop ↦ stops_here level t [] errors _ stop
  | inr on_way ↦ absurd (elim ends [
    | inl is ↦ cc (sym on_way ∙ ap (is_sequence_point level) is ∙ eof_is_sequence_point level)
    | inr nothing ↦ nothing
  ])
]
synchronize_from-Skips level t (u ∷ rest) errors ends =
    elim (Bool-cases (is_sequence_point level t.type)) [
      | inl stop ↦ stops_here level t (u ∷ rest) errors _ stop
      | inr on_way ↦ round-Skips level t (u ∷ rest) errors on_way _ (λ errors'. elim ends [
        | inl is ↦
            absurd (cc (sym on_way ∙ ap (is_sequence_point level) is ∙ eof_is_sequence_point level))
        | inr later ↦ synchronize_from-Skips level u rest errors' later
      ])
    ]

-- From any state that has the end of the text ahead, `Synchronize` comes to the first sequence point
-- of the level, at the current token or behind it, passes over the tokens before it, and adds one error
-- for each of these that is invalid; unless one of them is invalid and without a lexeme, where the
-- program stops. It neither waits for a token behind the end of the text nor throws.
pub synchronize_lem :
    (level : Bool) (s : Parser)
    → Ready s
    → Skips level (s.tok ∷ s.rest) s.errors (synchronize level s)
unfolding synchronize
synchronize_lem level s ends = synchronize_from-Skips level s.tok s.rest s.errors ends
