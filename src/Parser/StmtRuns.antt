-- ===== src/Parser/StmtRuns.antt =====
-- The statements of src/parser.c take a token when they return, and in any case where they start.
use lemon.Base.{ℕ, zero, suc, ◌≡◌, ◌≤◌, refl, Bool, true, false, not, ◌&&◌, ◌||◌, arith}
use lemon.Parser.Actions.{same_type}
use lemon.Parser.DeclRuns.{rec_variable-Runs}
use lemon.Parser.Expected.{Works, starts_stmt}
use lemon.Parser.Expressions.{Calls, rec_assignment}
use lemon.Parser.ExprRuns.{rec_assignment-Runs}
use lemon.Parser.FiatRuns.{rec_block-Runs}
use lemon.Parser.Runs.{
  Runs, any, takes, keeps, fewer, anywhere, stay_then, take_then, keep_then, take_at, pure-Runs,
  throw-Runs, abort-Runs, branch-Runs, on-Runs, else-Runs, nowhere, line-Stays, lexeme-Stays,
  vacuous, at_most,
}
use lemon.Parser.Statements.{
  rec_for_init, rec_for_loop, braced, rec_while_loop, rec_case, tests_loop, nonempty_tests,
  rec_tests, rec_switch, rec_short_var, rec_fail, rec_branch, rec_goto, rec_return,
  rec_named_target, rec_target, rec_anonymous_target, rec_label, rec_expr_stmt, rec_stmt,
}
use lemon.Parser.Stops.{move_check-Stops}
use lemon.Parser.Tokens.{
  get_next-Runs, get_next_keeps, assert_then, check_move-Runs, move_check-Runs,
  move_check_move-Runs,
}
use lemon.Parser.Tree.{Stmt, Tests, no_tests, test_then}
use lemon.Token.{
  TokenType, eof, identifier, semicolon, left_paren, right_paren, left_brace, right_brace, colon,
  let_kw, return_kw, break_kw, continue_kw, goto_kw, for_kw, while_kw, if_kw, switch_kw, else_kw,
  case_kw, default_kw, fallthrough_kw, label_kw,
}

abbrev is_case : TokenType → Bool
is_case t = same_type case_kw t || same_type default_kw t

abbrev is_named : TokenType → Bool
is_named t = same_type return_kw t || same_type goto_kw t

abbrev is_anonymous : TokenType → Bool
is_anonymous t = same_type break_kw t || same_type continue_kw t || same_type fallthrough_kw t

module _ (calls : Calls) (n : ℕ) (works : Works calls n) where
  expr_keeps : Runs any false false n (rec_assignment calls (suc n))
  expr_keeps = keeps (fewer (rec_assignment-Runs calls n works))

  braced-Runs : Runs any false false n (braced calls)
  unfolding braced
  braced-Runs = on-Runs left_brace (keeps (anywhere works.block_runs)) throw-Runs

  rec_for_init-Runs : Runs any false false n (rec_for_init calls (suc n))
  unfolding rec_for_init
  rec_for_init-Runs =
      on-Runs let_kw (keep_then (fewer (keeps (rec_variable-Runs calls n works))) (λ d. pure-Runs))
        (keep_then expr_keeps
          (λ e. keep_then (keeps (check_move-Runs semicolon refl)) (λ _. pure-Runs)))

  rec_for_loop-Runs : {q : TokenType → Bool} → Runs q true true (suc n) (rec_for_loop calls (suc n))
  unfolding rec_for_loop
  rec_for_loop-Runs = assert_then for_kw (
      stay_then line-Stays (λ l. take_then (move_check_move-Runs left_paren refl refl) (λ _.
        keep_then rec_for_init-Runs (λ init. keep_then expr_keeps (λ condition.
          keep_then (keeps (check_move-Runs semicolon refl)) (λ _. keep_then expr_keeps (λ post.
            keep_then (keeps (check_move-Runs right_paren refl))
              (λ _. keep_then (keeps works.block_runs) (λ body. pure-Runs)))))))))

  rec_while_loop-Runs :
      {q : TokenType → Bool} → Runs q true true (suc n) (rec_while_loop calls (suc n))
  unfolding rec_while_loop
  rec_while_loop-Runs = assert_then while_kw (
      stay_then line-Stays (λ l. take_then (move_check_move-Runs left_paren refl refl) (λ _.
        keep_then expr_keeps (λ condition.
          keep_then (keeps (check_move-Runs right_paren refl))
            (λ _. keep_then braced-Runs (λ body. pure-Runs))))))

  rec_case-Runs : (k : ℕ) → k ≤ n → Runs is_case true true (suc k) (rec_case calls (suc n))
  unfolding rec_case
  rec_case-Runs k le =
      on-Runs case_kw
        (take_then (get_next-Runs refl) (λ _. keep_then (at_most k le expr_keeps) (λ e. pure-Runs)))
        (take_then (get_next-Runs refl) (λ _. pure-Runs))

  tests_loop-Runs :
      (fuel k : ℕ) → k ≤ fuel → k ≤ n → Runs any false false k (tests_loop calls fuel (suc n))
  unfolding tests_loop
  tests_loop-Runs fuel zero le le' = vacuous _
  tests_loop-Runs zero (suc k) le le' = absurd (omega (arith, le))
  tests_loop-Runs (suc fuel) (suc k) le le' =
      branch-Runs
        (keeps (
          take_then (rec_case-Runs k (omega (arith, le'))) (λ condition.
            keep_then (at_most k (omega (arith, le')) braced-Runs) (λ pass.
              keep_then (tests_loop-Runs fuel k (omega (arith, le)) (omega (arith, le')))
                (λ others. pure-Runs)))))
        pure-Runs

  nonempty_tests-Runs : (ts : Tests) → Runs any false false n (nonempty_tests calls ts)
  unfolding nonempty_tests
  nonempty_tests-Runs no_tests = throw-Runs
  nonempty_tests-Runs (test_then c st ts) = pure-Runs

  rec_tests-Runs : Runs any false false n (rec_tests calls (suc n))
  unfolding rec_tests
  rec_tests-Runs =
      keep_then (tests_loop-Runs (suc n) n (omega arith) (omega arith)) nonempty_tests-Runs

  rec_switch-Runs : {q : TokenType → Bool} → Runs q true true (suc n) (rec_switch calls (suc n))
  unfolding rec_switch
  rec_switch-Runs = assert_then switch_kw (
      stay_then line-Stays (λ l. take_then (move_check_move-Runs left_paren refl refl) (λ _.
        keep_then expr_keeps (λ controller.
          keep_then (keeps (check_move-Runs right_paren refl)) (λ _.
            keep_then (keeps (check_move-Runs left_brace refl)) (λ _.
              keep_then rec_tests-Runs (λ tests.
                keep_then (keeps (check_move-Runs right_brace refl)) (λ _. pure-Runs))))))))

  rec_short_var-Runs : Runs any false false n (rec_short_var calls (suc n))
  unfolding rec_short_var
  rec_short_var-Runs =
      on-Runs let_kw (keep_then (fewer (keeps (rec_variable-Runs calls n works))) (λ d. pure-Runs))
        pure-Runs

  rec_fail-Runs : Runs any false false n (rec_fail calls)
  unfolding rec_fail
  rec_fail-Runs =
      on-Runs else_kw
        (keep_then (get_next_keeps refl) (λ _.
          keep_then
            (on-Runs if_kw (keeps (anywhere works.branch_runs))
              (on-Runs left_brace (keeps (anywhere works.block_runs)) throw-Runs))
            (λ st. pure-Runs)))
        pure-Runs

  -- `RecBranch`
  pub rec_branch-Runs : {q : TokenType → Bool} → Runs q true true (suc n) (rec_branch calls (suc n))
  unfolding rec_branch
  rec_branch-Runs = assert_then if_kw (
      stay_then line-Stays (λ l. take_then (move_check_move-Runs left_paren refl refl) (λ _.
        keep_then rec_short_var-Runs (λ declared. keep_then expr_keeps (λ condition.
          keep_then (keeps (check_move-Runs right_paren refl))
            (λ _. keep_then braced-Runs (λ pass. keep_then rec_fail-Runs (λ other. pure-Runs))))))))

  rec_goto-Runs : Runs (same_type goto_kw) true true (suc n) (rec_goto calls)
  unfolding rec_goto
  rec_goto-Runs = stay_then line-Stays (λ l.
      take_at (move_check-Runs identifier refl) (move_check-Stops identifier) (λ _.
        stay_then lexeme-Stays
          (λ name. keep_then (keeps (move_check_move-Runs semicolon refl refl)) (λ _. pure-Runs))))

  rec_return-Runs : Runs (same_type return_kw) true true (suc n) (rec_return calls (suc n))
  unfolding rec_return
  rec_return-Runs = stay_then line-Stays (λ l. take_then (get_next-Runs refl) (λ _.
      on-Runs semicolon (keep_then (get_next_keeps refl) (λ _. pure-Runs)) (
        keep_then expr_keeps
          (λ e. keep_then (keeps (check_move-Runs semicolon refl)) (λ _. pure-Runs)))))

  rec_named_target-Runs :
      {q : TokenType → Bool} → Runs q true true (suc n) (rec_named_target calls (suc n))
  unfolding rec_named_target
  rec_named_target-Runs =
      on-Runs goto_kw rec_goto-Runs (on-Runs return_kw rec_return-Runs abort-Runs)

  rec_target-Runs :
      (u : TokenType) (node : ℕ → Stmt)
      → same_type u eof ≡ false
      → Runs (same_type u) true true (suc n) (rec_target calls node)
  unfolding rec_target
  rec_target-Runs u node not_eof =
      stay_then line-Stays
        (λ l. take_then (move_check_move-Runs semicolon not_eof refl) (λ _. pure-Runs))

  rec_anonymous_target-Runs :
      {q : TokenType → Bool} → Runs q true true (suc n) (rec_anonymous_target calls)
  unfolding rec_anonymous_target
  rec_anonymous_target-Runs = on-Runs break_kw (rec_target-Runs break_kw _ refl) (
      on-Runs continue_kw (rec_target-Runs continue_kw _ refl)
        (on-Runs fallthrough_kw (rec_target-Runs fallthrough_kw _ refl) abort-Runs))

  rec_label-Runs : {q : TokenType → Bool} → Runs q true true (suc n) (rec_label calls)
  unfolding rec_label
  rec_label-Runs = assert_then label_kw (
      stay_then line-Stays (λ l.
        take_at (move_check-Runs identifier refl) (move_check-Stops identifier) (λ _.
          stay_then lexeme-Stays (λ name.
            keep_then (keeps (move_check_move-Runs colon refl refl))
              (λ _. keep_then (keeps works.stmt_runs) (λ target. pure-Runs))))))

  rec_expr_stmt-Runs : Runs any true false (suc n) (rec_expr_stmt calls (suc n))
  unfolding rec_expr_stmt
  rec_expr_stmt-Runs = stay_then line-Stays (λ l.
      take_then (rec_assignment-Runs calls n works)
        (λ e. keep_then (keeps (check_move-Runs semicolon refl)) (λ _. pure-Runs)))

  -- `RecStmt`
  pub rec_stmt-Runs : Runs any true false (suc n) (rec_stmt calls (suc n))
  unfolding rec_stmt
  rec_stmt-Runs = on-Runs left_brace (takes (rec_block-Runs calls n works)) (
      on-Runs for_kw (takes rec_for_loop-Runs) (
        on-Runs while_kw (takes rec_while_loop-Runs) (
          on-Runs switch_kw (takes rec_switch-Runs) (
            on-Runs if_kw (takes rec_branch-Runs) (
              branch-Runs {p = is_named} (takes rec_named_target-Runs) (
                branch-Runs {p = is_anonymous} (takes rec_anonymous_target-Runs) (
                  on-Runs label_kw (takes rec_label-Runs)
                    (on-Runs semicolon throw-Runs rec_expr_stmt-Runs))))))))

  stmt_starts_only :
      (u : TokenType)
      → (((((((starts_stmt u && not (same_type left_brace u)) && not (same_type for_kw u))
                  && not (same_type while_kw u))
                && not (same_type switch_kw u))
              && not (same_type if_kw u))
            && not (is_named u))
          && not (is_anonymous u))
        ≡ true
      → ⊥
  stmt_starts_only u at = grind arith

  pub rec_stmt_moves : Runs starts_stmt true true (suc n) (rec_stmt calls (suc n))
  unfolding rec_stmt
  rec_stmt_moves = else-Runs (same_type left_brace) (rec_block-Runs calls n works) (
      else-Runs (same_type for_kw) rec_for_loop-Runs (
        else-Runs (same_type while_kw) rec_while_loop-Runs (
          else-Runs (same_type switch_kw) rec_switch-Runs (
            else-Runs (same_type if_kw) rec_branch-Runs (
              else-Runs is_named rec_named_target-Runs
                (else-Runs is_anonymous rec_anonymous_target-Runs (nowhere stmt_starts_only)))))))
