-- ===== src/Parser/Expected.antt =====
-- What the productions of src/parser.c that recurse are to keep, for texts of so many tokens.
use lemon.Base.{ℕ, Bool, true, false, ◌||◌}
use lemon.Parser.Actions.{in_range, same_type}
use lemon.Parser.Expressions.{Calls}
use lemon.Parser.Runs.{Runs, any}
use lemon.Parser.Tree.{Expr}
use lemon.Token.{TokenType, struct_kw, let_kw, left_brace, return_kw, switch_kw}

-- where a declaration starts, and where a statement that takes its first token in any case
abbrev pub starts_decl : TokenType → Bool
starts_decl = in_range struct_kw let_kw

abbrev pub starts_stmt : TokenType → Bool
starts_stmt u = same_type left_brace u || in_range return_kw switch_kw u

pub record Works (calls : Calls) (n : ℕ) : Type 0 where
  pub type_runs : Runs any true false n calls.rec_type
  pub assignment_runs : Runs any true false n calls.rec_assignment
  pub unary_runs : Runs any true false n calls.rec_unary
  pub access_runs : (prev : Expr) → Runs any false false n (calls.rec_access prev)
  pub decl_runs : Runs any true false n calls.rec_decl
  pub decl_moves : Runs starts_decl true true n calls.rec_decl
  pub stmt_runs : Runs any true false n calls.rec_stmt
  pub stmt_moves : Runs starts_stmt true true n calls.rec_stmt
  pub block_runs : Runs any true true n calls.rec_block
  pub branch_runs : Runs any true true n calls.rec_branch
