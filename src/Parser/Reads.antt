-- ===== src/Parser/Reads.antt =====
-- `RecursiveDescent` reads the tokens to the end of the text, with a unit of fuel for each token and one more.
use lemon.Base.{
  ℕ, zero, suc, ◌≡◌, ◌≤◌, inr, refl, Bool, true, false, not, ◌&&◌, List, length, arith,
}
use lemon.Parser.{knot, rec_import, import_loop, decl_loop, recursive_descent, parser_init}
use lemon.Parser.Actions.{same_type, attempt, is_sequence_point, get_next}
use lemon.Parser.DeclRuns.{rec_decl-Runs, rec_decl_moves}
use lemon.Parser.Expected.{Works, starts_decl}
use lemon.Parser.Expressions.{Calls}
use lemon.Parser.ExprRuns.{rec_assignment-Runs, rec_unary-Runs, rec_access-Runs}
use lemon.Parser.FiatRuns.{rec_block-Runs}
use lemon.Parser.Runs.{
  Runs, any, takes, keeps, Stops, stay_then, take_then, keep_then, take_at, pure-Runs, on-Runs,
  else-Runs, narrower, vacuous, at_most, line-Stays, lexeme-Stays, After, At, HasEof,
}
use lemon.Parser.StmtRuns.{rec_branch-Runs, rec_stmt-Runs, rec_stmt_moves}
use lemon.Parser.Stops.{pure-Stops, branch-Stops, seq-Stops, later-Stops, move_check-Stops}
use lemon.Parser.Attempts.{attempt-Runs}
use lemon.Parser.Tokens.{get_next-Runs, get_next_keeps, assert_then, move_check-Runs}
use lemon.Parser.Tree.{CString}
use lemon.Parser.TypeRuns.{rec_type-Runs}
use lemon.Token.{TokenType, Token, eof, invalid, import_kw, literal_str}

pub knot-Works : (n : ℕ) → Works (knot n) n
unfolding knot
knot-Works zero = record {
  type_runs = vacuous _;
  assignment_runs = vacuous _;
  unary_runs = vacuous _;
  access_runs = λ prev. vacuous _;
  decl_runs = vacuous _;
  decl_moves = vacuous _;
  stmt_runs = vacuous _;
  stmt_moves = vacuous _;
  block_runs = vacuous _;
  branch_runs = vacuous _;
}
knot-Works (suc n) =
    let works = knot-Works n in
    record {
      type_runs = rec_type-Runs (knot n) n works;
      assignment_runs = rec_assignment-Runs (knot n) n works;
      unary_runs = rec_unary-Runs (knot n) n works;
      access_runs = rec_access-Runs (knot n) n works;
      decl_runs = rec_decl-Runs (knot n) n works;
      decl_moves = rec_decl_moves (knot n) n works;
      stmt_runs = rec_stmt-Runs (knot n) n works;
      stmt_moves = rec_stmt_moves (knot n) n works;
      block_runs = rec_block-Runs (knot n) n works;
      branch_runs = rec_branch-Runs (knot n) n works;
    }

rec_import-Runs : {q : TokenType → Bool} {k : ℕ} → Runs q true true (suc k) rec_import
unfolding rec_import
rec_import-Runs = assert_then import_kw (
    take_at (move_check-Runs literal_str refl) (move_check-Stops literal_str) (λ _.
      stay_then lexeme-Stays
        (λ alias. stay_then line-Stays (λ l. keep_then (get_next_keeps refl) (λ _. pure-Runs)))))

import_loop-Runs : (fuel k : ℕ) → k ≤ fuel → Runs any false false k (import_loop fuel)
unfolding import_loop
import_loop-Runs fuel zero le = vacuous _
import_loop-Runs zero (suc k) le = absurd (omega (arith, le))
import_loop-Runs (suc fuel) (suc k) le =
    on-Runs import_kw
      (keeps (
        take_then (attempt-Runs true (takes rec_import-Runs) rec_import-Runs)
          (λ node. keep_then (import_loop-Runs fuel k (omega (arith, le))) (λ others. pure-Runs))))
      pure-Runs

decl_point :
    (u : TokenType)
    → ((any u && not (same_type eof u)) && is_sequence_point true u) ≡ true
    → starts_decl u ≡ true
unfolding is_sequence_point
decl_point u at = grind arith

decl_loop-Runs :
    (calls : Calls) (n : ℕ)
    → Works calls n
    → (fuel k : ℕ) → k ≤ fuel
    → k ≤ n
    → Runs any false false k (decl_loop fuel calls)
unfolding decl_loop
decl_loop-Runs calls n works fuel zero le le' = vacuous _
decl_loop-Runs calls n works zero (suc k) le le' = absurd (omega (arith, le))
decl_loop-Runs calls n works (suc fuel) (suc k) le le' = else-Runs (same_type eof) pure-Runs (
    keeps (
      take_then
        (attempt-Runs true (narrower (λ u e. refl) (at_most (suc k) le' works.decl_runs))
          (narrower decl_point (at_most (suc k) le' works.decl_moves)))
        (λ node.
          keep_then (decl_loop-Runs calls n works fuel k (omega (arith, le)) (omega (arith, le')))
            (λ others. pure-Runs))))

decl_loop-Stops : (calls : Calls) (fuel : ℕ) → Stops any (same_type eof) (decl_loop fuel calls)
unfolding decl_loop
decl_loop-Stops calls zero = record { stop = λ s at. tt }
decl_loop-Stops calls (suc fuel) = branch-Stops pure-Stops (
    later-Stops (attempt true calls.rec_decl)
      (λ node. seq-Stops (decl_loop-Stops calls fuel) (λ others. pure-Stops)))

recursive_descent-Runs :
    (n : ℕ) (alias : CString)
    → Runs (same_type invalid) true true (suc n) (recursive_descent (suc n) alias)
unfolding recursive_descent
recursive_descent-Runs n alias = take_then (get_next-Runs refl) (λ _.
    keep_then (import_loop-Runs (suc n) n (omega arith)) (λ imports.
      keep_then
        (decl_loop-Runs (knot (suc n)) (suc n) (knot-Works (suc n)) (suc n) n (omega arith)
          (omega arith))
        (λ declarations. pure-Runs)))

recursive_descent-Stops :
    (fuel : ℕ) (alias : CString)
    → Stops (same_type invalid) (same_type eof) (recursive_descent fuel alias)
unfolding recursive_descent
recursive_descent-Stops fuel alias = later-Stops get_next (λ _.
    later-Stops (import_loop fuel)
      (λ imports. seq-Stops (decl_loop-Stops (knot fuel) fuel) (λ declarations. pure-Stops)))

-- the state that `ParserInit` leaves has no token but those of the channel
pub init-Runs :
    (alias : CString) (tokens : List Token)
    → HasEof tokens
    → After true true
        (parser_init tokens)
        (recursive_descent (suc (length tokens)) alias (parser_init tokens))
unfolding parser_init
init-Runs alias tokens ends =
    (recursive_descent-Runs (length tokens) alias).run (parser_init tokens) (inr ends) (omega arith)
      refl

pub init-Stops :
    (alias : CString) (tokens : List Token)
    → At (same_type eof) (recursive_descent (suc (length tokens)) alias (parser_init tokens))
unfolding parser_init
init-Stops alias tokens =
    (recursive_descent-Stops (suc (length tokens)) alias).stop (parser_init tokens) refl
