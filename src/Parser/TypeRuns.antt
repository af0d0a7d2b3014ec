-- ===== src/Parser/TypeRuns.antt =====
-- The types of src/parser.c, its argument lists and array literals: each keeps what `Runs` says.
use lemon.Base.{ℕ, zero, suc, ◌≤◌, refl, Bool, true, false, List, arith}
use lemon.Parser.Actions.{pure, pick, same_type, check_move}
use lemon.Parser.Expected.{Works}
use lemon.Parser.Expressions.{
  Calls, base_type, rec_named, rec_pointer, rec_array, rec_type, rec_identifier, arguments_loop,
  rec_arguments, rec_rvar, rec_rvar_or_identifier, rec_key, array_loop, rec_array_literal,
}
use lemon.Parser.Runs.{
  Runs, any, takes, keeps, fewer, Stops, stay_then, take_then, keep_then, take_at, keep_at,
  pure-Runs, throw-Runs, branch-Runs, pick-Runs, gets-Stays, line-Stays, lexeme-Stays,
  lexeme_of-Stays, assert-Stays, vacuous, at_most,
}
use lemon.Parser.Stops.{
  pure-Stops, branch-Stops, seq-Stops, later-Stops, stay-Stops, move_check-Stops, index-Stops,
}
use lemon.Parser.Tokens.{
  get_next-Runs, get_next_keeps, assert_then, check_move-Runs, move_check-Runs,
  move_check_move-Runs, extract_array_index-Runs,
}
use lemon.Parser.Tree.{TypeNode, base, named, pointer, array, ident}
use lemon.Token.{
  TokenType, Token, identifier, literal_int, right_bracket, right_paren, comma, equal, left_paren,
  left_bracket, tilde,
}

pub rec_identifier-Runs : {q : TokenType → Bool} {k : ℕ} → Runs q false false k rec_identifier
unfolding rec_identifier
rec_identifier-Runs =
    stay_then (assert-Stays identifier)
      (λ _. stay_then line-Stays (λ l. stay_then lexeme-Stays (λ name. pure-Runs)))

pub rec_identifier-Stops : {q : TokenType → Bool} → Stops q q rec_identifier
unfolding rec_identifier
rec_identifier-Stops =
    stay-Stops (assert-Stays identifier)
      (λ _. stay-Stops line-Stays (λ l. stay-Stops lexeme-Stays (λ name. pure-Stops)))

-- the key of an element
rec_key-Runs : {k : ℕ} → Runs any false false k rec_key
unfolding rec_key
rec_key-Runs =
    branch-Runs
      (keep_at (keeps (move_check-Runs literal_int refl)) (move_check-Stops literal_int) (λ _.
        keep_at extract_array_index-Runs index-Stops (λ idx.
          keep_then (keeps (move_check_move-Runs right_bracket refl refl))
            (λ _. keep_then (keeps (check_move-Runs equal refl)) (λ _. pure-Runs)))))
      pure-Runs

pub separator-Runs :
    {k : ℕ} (more : Bool) → Runs any false false k (pick more (check_move comma) (pure tt))
separator-Runs more = pick-Runs more (keeps (check_move-Runs comma refl)) pure-Runs

module _ (calls : Calls) where
  arguments_stop :
      (fuel : ℕ) (more : Bool) → Stops any (same_type right_paren) (arguments_loop calls fuel more)
  unfolding arguments_loop
  arguments_stop zero more = record { stop = λ s at. tt }
  arguments_stop (suc fuel) more = branch-Stops pure-Stops (
      later-Stops (pick more (check_move comma) (pure tt)) (λ _.
        later-Stops calls.rec_assignment
          (λ arg. seq-Stops (arguments_stop fuel true) (λ args. pure-Stops))))

  array_stop :
      (fuel : ℕ) (more : Bool) → Stops any (same_type right_bracket) (array_loop calls fuel more)
  unfolding array_loop
  array_stop zero more = record { stop = λ s at. tt }
  array_stop (suc fuel) more = branch-Stops pure-Stops (
      later-Stops (pick more (check_move comma) (pure tt)) (λ _. later-Stops rec_key (λ key.
        later-Stops calls.rec_assignment
          (λ value. seq-Stops (array_stop fuel true) (λ others. pure-Stops)))))

module _ (calls : Calls) (n : ℕ) (works : Works calls n) where
  arguments_loop-Runs :
      (fuel k : ℕ)
      → k ≤ fuel
      → k ≤ n
      → (more : Bool) → Runs any false false k (arguments_loop calls fuel more)
  unfolding arguments_loop
  arguments_loop-Runs fuel zero le le' more = vacuous _
  arguments_loop-Runs zero (suc k) le le' more = absurd (omega (arith, le))
  arguments_loop-Runs (suc fuel) (suc k) le le' more = branch-Runs pure-Runs (
      keep_then (separator-Runs more) (λ _. keeps (
        take_then (at_most (suc k) le' works.assignment_runs) (λ arg.
          keep_then (arguments_loop-Runs fuel k (omega (arith, le)) (omega (arith, le')) true)
            (λ args. pure-Runs)))))

  array_loop-Runs :
      (fuel k : ℕ)
      → k ≤ fuel
      → k ≤ n
      → (more : Bool) → Runs any false false k (array_loop calls fuel more)
  unfolding array_loop
  array_loop-Runs fuel zero le le' more = vacuous _
  array_loop-Runs zero (suc k) le le' more = absurd (omega (arith, le))
  array_loop-Runs (suc fuel) (suc k) le le' more = branch-Runs pure-Runs (
      keep_then (separator-Runs more) (λ _. keep_then rec_key-Runs (λ key. keeps (
        take_then (at_most (suc k) le' works.assignment_runs) (λ value.
          keep_then (array_loop-Runs fuel k (omega (arith, le)) (omega (arith, le')) true)
            (λ others. pure-Runs))))))

  pub rec_arguments-Runs :
      {q : TokenType → Bool} → Runs q true true (suc n) (rec_arguments calls (suc n))
  unfolding rec_arguments
  rec_arguments-Runs = assert_then left_paren (
      take_then (get_next-Runs refl) (λ _.
        keep_at (arguments_loop-Runs (suc n) n (omega arith) (omega arith) false)
          (arguments_stop calls (suc n) false)
          (λ args. keep_then (get_next_keeps refl) (λ _. pure-Runs))))

  pub rec_array_literal-Runs :
      {q : TokenType → Bool} → Runs q true true (suc n) (rec_array_literal calls (suc n))
  unfolding rec_array_literal
  rec_array_literal-Runs = assert_then left_bracket (
      stay_then line-Stays (λ l. take_then (get_next-Runs refl) (λ _.
        keep_at (array_loop-Runs (suc n) n (omega arith) (omega arith) false)
          (array_stop calls (suc n) false)
          (λ elements. keep_then (get_next_keeps refl) (λ _. pure-Runs)))))

  rec_rvar-Runs :
      (name : List ℕ) (l : ℕ) → Runs (same_type tilde) false false n (rec_rvar calls (suc n) name l)
  unfolding rec_rvar
  rec_rvar-Runs name l =
      keep_then (get_next_keeps refl)
        (λ _. keep_then (fewer (keeps rec_arguments-Runs)) (λ args. pure-Runs))

  pub rec_rvar_or_identifier-Runs :
      {q : TokenType → Bool} → Runs q true true (suc n) (rec_rvar_or_identifier calls (suc n))
  unfolding rec_rvar_or_identifier
  rec_rvar_or_identifier-Runs = assert_then identifier (
      stay_then line-Stays (λ l. stay_then (gets-Stays {g = λ s. s.tok}) (λ (prev : Token).
        take_then (get_next-Runs refl) (λ _.
          stay_then (lexeme_of-Stays prev.view prev.len)
            (λ name. branch-Runs (rec_rvar-Runs name l) (pure-Runs {a = ident name l}))))))

  base_type-Runs : (t : TypeNode) → Runs any false false n (base_type t)
  unfolding base_type
  base_type-Runs (base name l) = pure-Runs
  base_type-Runs (named name t l) = throw-Runs
  base_type-Runs (pointer t l) = throw-Runs
  base_type-Runs (array t len l) = throw-Runs

  rec_named-Runs : Runs (same_type identifier) true false (suc n) (rec_named calls)
  unfolding rec_named
  rec_named-Runs = takes (
      stay_then line-Stays (λ l. stay_then lexeme-Stays (λ name.
        take_then (get_next-Runs refl) (λ _.
          branch-Runs
            (keep_then (keeps (move_check-Runs identifier refl)) (λ _.
              keep_then (keeps works.type_runs)
                (λ reference. keep_then (base_type-Runs reference) (λ _. pure-Runs))))
            pure-Runs))))

  rec_array-Runs : Runs (same_type left_bracket) true false (suc n) (rec_array calls)
  unfolding rec_array
  rec_array-Runs = takes (
      stay_then line-Stays (λ l.
        take_at (move_check-Runs literal_int refl) (move_check-Stops literal_int) (λ _.
          keep_at extract_array_index-Runs index-Stops (λ len.
            keep_then (keeps (move_check_move-Runs right_bracket refl refl))
              (λ _. keep_then (keeps works.type_runs) (λ element. pure-Runs))))))

  -- `RecType`
  pub rec_type-Runs : Runs any true false (suc n) (rec_type calls)
  unfolding rec_type rec_pointer
  rec_type-Runs = branch-Runs rec_named-Runs (
      branch-Runs
        (takes (
          stay_then line-Stays (λ l.
            take_then (get_next-Runs refl)
              (λ _. keep_then (keeps works.type_runs) (λ reference. pure-Runs)))))
        (branch-Runs rec_array-Runs throw-Runs))
