-- ===== src/Parser/FiatRuns.antt =====
-- The fiats of a block in src/parser.c: a round of the loop takes a token, or is at the end of the text and
-- throws for the missing brace.
use lemon.Base.{
  ℕ, zero, suc, ◌≡◌, ◌≤◌, ◌<◌, inl, inr, refl, ap, ◌∙◌, Bool, true, false, not, ◌&&◌, ◌||◌, Option,
  length, arith,
}
use lemon.Parser.Actions.{
  Parser, Result, ok, thrown, aborted, past_eof, out_of_fuel, Action, pure, bind, ◌>>=◌, ◌>>◌,
  same_type, attempt, recovered, is_sequence_point,
}
use lemon.Parser.Expected.{Works, starts_decl, starts_stmt}
use lemon.Parser.Expressions.{Calls}
use lemon.Parser.Runs.{
  After, After-keeps, bind_left, At-any, Runs, any, keeps, Stops, stay_then, take_then, take_on,
  keep_then, keep_at, pure-Runs, throw-Runs, branch-Runs, else-Runs, apart-Runs, narrower, vacuous,
  at_most, line-Stays,
}
use lemon.Parser.Statements.{missing_brace, rec_fiat, parse_fiats, rec_block}
use lemon.Parser.Stops.{pure-Stops, branch-Stops, seq-Stops, later-Stops}
use lemon.Parser.Attempts.{Recovered, recovered-Recovered, attempt-Runs}
use lemon.Parser.Tokens.{get_next-Runs, get_next_keeps, assert_then}
use lemon.Parser.Tree.{decl_then, stmt_then}
use lemon.Token.{TokenType, eof, left_brace, right_brace, struct_kw, func_kw, method_kw, let_kw}

missing_brace-Runs : {k : ℕ} → Runs any false false k missing_brace
unfolding missing_brace
missing_brace-Runs = branch-Runs throw-Runs pure-Runs

module _ {A B : Type 0} {k : ℕ} {m : Action A} {f : Option A → Action B} where
  -- at the end of the text
  ended-Runs :
      Runs any true false (suc k) m
      → ((a : Option A) → Runs any false false k (f a))
      → Runs
          (λ u. any u && same_type eof u)
          false
          false
          (suc k)
          (attempt false m >>= λ a. missing_brace >> f a)
  unfolding missing_brace
  ended-Runs h more = record {
    run = λ s r lt at.
        ended s lt at (recovered false (m s))
          (recovered-Recovered A false false s (m s) (h.run s r lt refl));
  }
    where
      ended :
          (s : Parser)
          → length s.rest < suc k
          → same_type eof s.tok.type ≡ true
          → (r : Result (Option A)) → Recovered false s r
          → After false false s (bind r (λ a. missing_brace >> f a))
      ended s lt is (ok a s') (ready, more', inl less) = After-keeps true false s _ (
          bind_left true false k s (ok a s') lt
            (record { ready = ready; errors = more'; taken = inl less }) (At-any (ok a s'))
            (λ a'. keep_then missing_brace-Runs (λ _. more a')))
      ended s lt is (ok a s') (ready, more', inr (_, tok, rest)) =
          let is' : same_type eof s'.tok.type ≡ true = ap (λ x. same_type eof x.type) tok ∙ is in
          rw is' (
            record { ready = ready; errors = omega (arith, more'); taken = inr (refl, tok, rest) },
            omega (arith, more'),
          )
      ended s lt is (thrown s') h' = absurd h'
      ended s lt is aborted h' = tt
      ended s lt is past_eof h' = h'
      ended s lt is out_of_fuel h' = h'

  round-Runs :
      Runs any true false (suc k) m
      → Runs (λ u. not (same_type eof u) && is_sequence_point false u) true true (suc k) m
      → ((a : Option A) → Runs any false false k (f a))
      → Runs any false false (suc k) (attempt false m >>= λ a. missing_brace >> f a)
  round-Runs weak strong more = apart-Runs (same_type eof) (ended-Runs weak more) (
      keeps (
        take_then (attempt-Runs false (narrower (λ u e. refl) weak) strong)
          (λ a. keep_then missing_brace-Runs (λ _. more a))))

starts_apart :
    (u : TokenType)
    → ((not (same_type eof u) && is_sequence_point false u)
        && not (
            same_type struct_kw u
            || same_type func_kw u
            || same_type method_kw u
            || same_type let_kw u))
      ≡ true
    → starts_stmt u ≡ true
unfolding is_sequence_point
starts_apart u at = grind arith

starts_fiat :
    (u : TokenType)
    → (same_type struct_kw u || same_type func_kw u || same_type method_kw u || same_type let_kw u)
      ≡ true
    → starts_decl u ≡ true
starts_fiat u at = grind arith

-- what is made of the result does not matter, nor whether it is by one more step
fiat_of :
    {A B : Type 0} {q : TokenType → Bool} {t : Bool} {k : ℕ} {m : Action A} (g : A → B)
    → Runs q true t k m
    → Runs q true t k (m >>= λ a. pure (g a))
fiat_of {k} g h = take_on k h (λ a. pure-Runs)

parse_fiats_stop :
    (calls : Calls) (fuel : ℕ) → Stops any (same_type right_brace) (parse_fiats calls fuel)
unfolding parse_fiats
parse_fiats_stop calls zero = record { stop = λ s at. tt }
parse_fiats_stop calls (suc fuel) = branch-Stops pure-Stops (
    later-Stops (attempt false (rec_fiat calls)) (λ put.
      later-Stops missing_brace
        (λ _. seq-Stops (parse_fiats_stop calls fuel) (λ others. pure-Stops))))

module _ (calls : Calls) (n : ℕ) (works : Works calls n) where
  rec_fiat-Runs : Runs any true false n (rec_fiat calls)
  unfolding rec_fiat
  rec_fiat-Runs =
      branch-Runs (fiat_of (λ d fiats. decl_then d fiats) (narrower (λ u e. refl) works.decl_runs))
        (fiat_of (λ st fiats. stmt_then st fiats) works.stmt_runs)

  rec_fiat_moves :
      Runs (λ u. not (same_type eof u) && is_sequence_point false u) true true n (rec_fiat calls)
  unfolding rec_fiat
  rec_fiat_moves =
      else-Runs _ (fiat_of (λ d fiats. decl_then d fiats) (narrower starts_fiat works.decl_moves))
        (fiat_of (λ st fiats. stmt_then st fiats) (narrower starts_apart works.stmt_moves))

  parse_fiats-Runs :
      (fuel k : ℕ) → k ≤ fuel → k ≤ n → Runs any false false k (parse_fiats calls fuel)
  unfolding parse_fiats
  parse_fiats-Runs fuel zero le le' = vacuous _
  parse_fiats-Runs zero (suc k) le le' = absurd (omega (arith, le))
  parse_fiats-Runs (suc fuel) (suc k) le le' = branch-Runs pure-Runs (
      round-Runs (at_most (suc k) le' rec_fiat-Runs) (at_most (suc k) le' rec_fiat_moves) (λ put.
        keep_then (parse_fiats-Runs fuel k (omega (arith, le)) (omega (arith, le')))
          (λ others. pure-Runs)))

  -- `RecBlock`
  pub rec_block-Runs : {q : TokenType → Bool} → Runs q true true (suc n) (rec_block calls (suc n))
  unfolding rec_block
  rec_block-Runs = assert_then left_brace (
      stay_then line-Stays (λ l. take_then (get_next-Runs refl) (λ _.
        keep_at (parse_fiats-Runs (suc n) n (omega arith) (omega arith))
          (parse_fiats_stop calls (suc n))
          (λ fiats. keep_then (get_next_keeps refl) (λ _. pure-Runs)))))
