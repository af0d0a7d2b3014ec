-- ===== src/Parser/ExprRuns.antt =====
-- The expressions of src/parser.c take a token when they return, and keep what `Runs` says.
use lemon.Base.{ℕ, zero, suc, ◌≡◌, ◌≤◌, refl, Bool, true, false, arith}
use lemon.Parser.Actions.{Action, same_type}
use lemon.Parser.Expected.{Works}
use lemon.Parser.Expressions.{
  Calls, rec_selector, rec_call, rec_index, rec_access, rec_literal, rec_grouping, rec_atom,
  rec_primary, rec_prefix, rec_cast, rec_unary, binary_loop, binary_level, rec_factor, rec_term,
  rec_equality, rec_logical_and, rec_logical_or, rec_assignment, is_factor, is_term, is_equality,
  is_unary, is_literal,
}
use lemon.Parser.Runs.{
  Runs, any, takes, keeps, fewer, stay_then, take_then, keep_then, take_at, keep_at, pure-Runs,
  throw-Runs, branch-Runs, on-Runs, line-Stays, type-Stays, lexeme-Stays, vacuous, at_most,
}
use lemon.Parser.Stops.{move_check-Stops}
use lemon.Parser.Tokens.{get_next-Runs, get_next_keeps, check_move-Runs, move_check-Runs}
use lemon.Parser.Tree.{Expr}
use lemon.Parser.TypeRuns.{
  rec_identifier-Runs, rec_identifier-Stops, rec_arguments-Runs, rec_array_literal-Runs,
  rec_rvar_or_identifier-Runs,
}
use lemon.Token.{
  TokenType, eof, identifier, right_bracket, right_paren, colon, left_paren, left_bracket,
  logical_and, logical_or, dot,
}

-- the loop of a level, where the operand is good for so many tokens
binary_loop-Runs :
    (n : ℕ) (is_operator : TokenType → Bool) (operand : Action Expr)
    → is_operator eof ≡ false
    → Runs any true false n operand
    → (fuel k : ℕ) → k ≤ fuel
    → k ≤ n
    → (node : Expr) → Runs any false false k (binary_loop fuel is_operator operand node)
unfolding binary_loop
binary_loop-Runs n is_operator operand not_eof h fuel zero le le' node = vacuous _
binary_loop-Runs n is_operator operand not_eof h zero (suc k) le le' node =
    absurd (omega (arith, le))
binary_loop-Runs n is_operator operand not_eof h (suc fuel) (suc k) le le' node =
    branch-Runs
      (keeps (
        stay_then type-Stays (λ operator. stay_then line-Stays (λ l.
          take_then (get_next-Runs not_eof) (λ _.
            keep_then (keeps (at_most k (omega (arith, le')) h)) (λ right.
              binary_loop-Runs n is_operator operand not_eof h fuel k (omega (arith, le))
                (omega (arith, le')) _))))))
      pure-Runs

binary_level-Runs :
    (n : ℕ) (is_operator : TokenType → Bool) (operand : Action Expr)
    → is_operator eof ≡ false
    → Runs any true false (suc n) operand
    → Runs any true false (suc n) (binary_level (suc n) is_operator operand)
unfolding binary_level
binary_level-Runs n is_operator operand not_eof h = take_then h (λ node.
    binary_loop-Runs (suc n) is_operator operand not_eof h (suc n) n (omega arith) (omega arith)
      node)

module _ (calls : Calls) (n : ℕ) (works : Works calls n) where
  rec_selector-Runs :
      (prev : Expr) → Runs (same_type dot) true true (suc n) (rec_selector calls prev)
  unfolding rec_selector
  rec_selector-Runs prev = stay_then line-Stays (λ l.
      take_at (move_check-Runs identifier refl) (move_check-Stops identifier) (λ _.
        keep_at rec_identifier-Runs rec_identifier-Stops
          (λ attr. keep_then (get_next_keeps refl) (λ _. works.access_runs _))))

  rec_call-Runs :
      {q : TokenType → Bool}
      → (prev : Expr) → Runs q true true (suc n) (rec_call calls (suc n) prev)
  unfolding rec_call
  rec_call-Runs prev =
      stay_then line-Stays
        (λ l. take_then (rec_arguments-Runs calls n works) (λ args. works.access_runs _))

  rec_index-Runs :
      (prev : Expr) → Runs (same_type left_bracket) true true (suc n) (rec_index calls prev)
  unfolding rec_index
  rec_index-Runs prev = stay_then line-Stays (λ l. take_then (get_next-Runs refl) (λ _.
      keep_then (keeps works.assignment_runs)
        (λ key. keep_then (keeps (check_move-Runs right_bracket refl)) (λ _. works.access_runs _))))

  -- `RecAccess`
  pub rec_access-Runs : (prev : Expr) → Runs any false false (suc n) (rec_access calls (suc n) prev)
  unfolding rec_access
  rec_access-Runs prev = branch-Runs (keeps (rec_selector-Runs prev)) (
      branch-Runs (keeps (rec_call-Runs prev))
        (branch-Runs (keeps (rec_index-Runs prev)) pure-Runs))

  rec_literal-Runs : Runs is_literal true true (suc n) rec_literal
  unfolding rec_literal
  rec_literal-Runs = stay_then line-Stays (λ l.
      stay_then lexeme-Stays
        (λ rep. stay_then type-Stays (λ littype. take_then (get_next-Runs refl) (λ _. pure-Runs))))

  rec_grouping-Runs : Runs (same_type left_paren) true true (suc n) (rec_grouping calls)
  unfolding rec_grouping
  rec_grouping-Runs = take_then (get_next-Runs refl) (λ _.
      keep_then (keeps works.assignment_runs)
        (λ node. keep_then (keeps (check_move-Runs right_paren refl)) (λ _. pure-Runs)))

  rec_atom-Runs : Runs any true false (suc n) (rec_atom calls (suc n))
  unfolding rec_atom
  rec_atom-Runs = on-Runs identifier (takes (rec_rvar_or_identifier-Runs calls n works)) (
      branch-Runs (takes (rec_array_literal-Runs calls n works))
        (branch-Runs (takes rec_literal-Runs) (branch-Runs (takes rec_grouping-Runs) throw-Runs)))

  rec_primary-Runs : Runs any true false (suc n) (rec_primary calls (suc n))
  unfolding rec_primary
  rec_primary-Runs =
      stay_then lexeme-Stays (λ _. take_then rec_atom-Runs (λ node. fewer (rec_access-Runs node)))

  rec_prefix-Runs : Runs is_unary true true (suc n) (rec_prefix calls)
  unfolding rec_prefix
  rec_prefix-Runs = stay_then type-Stays (λ operator. stay_then line-Stays (λ l.
      take_then (get_next-Runs refl)
        (λ _. keep_then (keeps works.unary_runs) (λ operand. pure-Runs))))

  rec_cast-Runs : Runs (same_type colon) true true (suc n) (rec_cast calls)
  unfolding rec_cast
  rec_cast-Runs = stay_then line-Stays (λ l. take_then (get_next-Runs refl) (λ _.
      keep_then (keeps works.type_runs) (λ casttype.
        keep_then (keeps (check_move-Runs colon refl))
          (λ _. keep_then (keeps works.unary_runs) (λ operand. pure-Runs)))))

  -- `RecUnary`
  pub rec_unary-Runs : Runs any true false (suc n) (rec_unary calls (suc n))
  unfolding rec_unary
  rec_unary-Runs =
      branch-Runs (takes rec_prefix-Runs) (branch-Runs (takes rec_cast-Runs) rec_primary-Runs)

  rec_logical_or-Runs : Runs any true false (suc n) (rec_logical_or calls (suc n))
  unfolding rec_factor rec_term rec_equality rec_logical_and rec_logical_or
  rec_logical_or-Runs = binary_level-Runs n (same_type logical_or) _ refl (
      binary_level-Runs n (same_type logical_and) _ refl (
        binary_level-Runs n is_equality _ refl (
          binary_level-Runs n is_term _ refl
            (binary_level-Runs n is_factor _ refl rec_unary-Runs))))

  -- `RecAssignment`
  pub rec_assignment-Runs : Runs any true false (suc n) (rec_assignment calls (suc n))
  unfolding rec_assignment
  rec_assignment-Runs = take_then rec_logical_or-Runs (λ node.
      branch-Runs
        (stay_then line-Stays (λ l.
          keep_then (get_next_keeps refl)
            (λ _. keep_then (fewer (keeps rec_logical_or-Runs)) (λ rvalue. pure-Runs))))
        pure-Runs)
