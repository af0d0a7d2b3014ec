-- ===== src/Parser/Statements.antt =====
-- The statements of src/parser.c.
use lemon.Base.{◌||◌, ℕ, zero, suc, false, Option, none, some}
use lemon.Parser.Actions.{
  out_of_fuel, Action, pure, abort, throw_error, ◌>>=◌, ◌>>◌, on_any, on, same_type, assert_token,
  line, lexeme, get_next, check_move, move_check, move_check_move, attempt,
}
use lemon.Parser.Expressions.{Calls, rec_assignment}
use lemon.Parser.Tree.{
  Expr, Stmt, exprstmt, block, forloop, whileloop, switchstmt, branch, returnstmt, breakstmt,
  continuestmt, fallthroughstmt, gotolabel, label, Fiats, no_fiats, decl_then, stmt_then, Tests,
  no_tests, test_then, ForInit, for_decl, for_init, ShortVar, no_shortvar, shortvar, Fail, no_fail,
  fail,
}
use lemon.Token.{
  eof, identifier, semicolon, left_paren, right_paren, left_brace, right_brace, colon, struct_kw,
  func_kw, method_kw, let_kw, return_kw, break_kw, continue_kw, goto_kw, for_kw, while_kw, if_kw,
  switch_kw, else_kw, case_kw, default_kw, fallthrough_kw, label_kw,
}
use lemon.Parser.Declarations.{rec_variable}

-- What a block adds at its end: the braces have to be closed before the end of the module.
unfoldable pub missing_brace : Action (Unit {0})
missing_brace = on eof throw_error (pure tt)

-- A fiat that was read is pushed in front of those that follow.
abbrev pub push_fiat : Option (Fiats → Fiats) → Fiats → Fiats
push_fiat none fiats = fiats
push_fiat (some put) fiats = put fiats

module _ (calls : Calls) where
  -- `RecFiat`; the fiat is what it puts in front of those that follow
  unfoldable pub rec_fiat : Action (Fiats → Fiats)
  rec_fiat =
      on_any
        (λ t.
          same_type struct_kw t
          || same_type func_kw t
          || same_type method_kw t
          || same_type let_kw t)
        (do d ← calls.rec_decl; pure (decl_then d)) (do st ← calls.rec_stmt; pure (stmt_then st))

  -- `ParseFiats`
  unfoldable pub parse_fiats : ℕ → Action Fiats
  parse_fiats zero = λ s. out_of_fuel
  parse_fiats (suc fuel) =
      let later = parse_fiats fuel in
      on right_brace (pure no_fiats) (do
        put ← attempt false rec_fiat
        missing_brace
        others ← later
        pure (push_fiat put others))

  -- `RecBlock`
  unfoldable pub rec_block : ℕ → Action Stmt
  rec_block fuel = do
    assert_token left_brace
    l ← line
    get_next
    fiats ← parse_fiats fuel
    get_next
    pure (block fiats l)

  -- the first part of a for loop
  unfoldable pub rec_for_init : ℕ → Action ForInit
  rec_for_init fuel =
      on let_kw (do d ← rec_variable calls fuel; pure (for_decl d))
        (do e ← rec_assignment calls fuel; check_move semicolon; pure (for_init e))

  -- `RecForLoop`
  unfoldable pub rec_for_loop : ℕ → Action Stmt
  rec_for_loop fuel = do
    assert_token for_kw
    l ← line
    move_check_move left_paren
    init ← rec_for_init fuel
    condition ← rec_assignment calls fuel
    check_move semicolon
    post ← rec_assignment calls fuel
    check_move right_paren
    body ← calls.rec_block
    pure (forloop init condition post body l)

  -- a block, or the error that it is missing
  unfoldable pub braced : Action Stmt
  braced = on left_brace calls.rec_block throw_error

  -- `RecWhileLoop`
  unfoldable pub rec_while_loop : ℕ → Action Stmt
  rec_while_loop fuel = do
    assert_token while_kw
    l ← line
    move_check_move left_paren
    condition ← rec_assignment calls fuel
    check_move right_paren
    body ← braced
    pure (whileloop condition body l)

  -- the condition of a case of a switch
  unfoldable pub rec_case : ℕ → Action (Option Expr)
  rec_case fuel =
      on case_kw (do get_next; e ← rec_assignment calls fuel; pure (some e))
        (do get_next; pure none)

  -- the loop of `RecTests`
  unfoldable pub tests_loop : ℕ → ℕ → Action Tests
  tests_loop zero outer = λ s. out_of_fuel
  tests_loop (suc fuel) outer =
      let later = tests_loop fuel outer in
      on_any (λ t. same_type case_kw t || same_type default_kw t)
        (do
          condition ← rec_case outer
          pass ← braced
          others ← later
          pure (test_then condition pass others))
        (pure no_tests)

  unfoldable pub nonempty_tests : Tests → Action Tests
  nonempty_tests no_tests = throw_error
  nonempty_tests (test_then c st ts) = pure (test_then c st ts)

  -- `RecTests`
  unfoldable pub rec_tests : ℕ → Action Tests
  rec_tests fuel = do vec ← tests_loop fuel fuel; nonempty_tests vec

  -- `RecSwitch`
  unfoldable pub rec_switch : ℕ → Action Stmt
  rec_switch fuel = do
    assert_token switch_kw
    l ← line
    move_check_move left_paren
    controller ← rec_assignment calls fuel
    check_move right_paren
    check_move left_brace
    tests ← rec_tests fuel
    check_move right_brace
    pure (switchstmt controller tests l)

  -- the declaration in front of the condition of a branch
  unfoldable pub rec_short_var : ℕ → Action ShortVar
  rec_short_var fuel =
      on let_kw (do d ← rec_variable calls fuel; pure (shortvar d)) (pure no_shortvar)

  -- the else branch, from the keyword on
  unfoldable pub rec_fail : Action Fail
  rec_fail =
      on else_kw
        (do
          get_next
          st ← on if_kw calls.rec_branch (on left_brace calls.rec_block throw_error)
          pure (fail st))
        (pure no_fail)

  -- `RecBranch`
  unfoldable pub rec_branch : ℕ → Action Stmt
  rec_branch fuel = do
    assert_token if_kw
    l ← line
    move_check_move left_paren
    declared ← rec_short_var fuel
    condition ← rec_assignment calls fuel
    check_move right_paren
    pass ← braced
    other ← rec_fail
    pure (branch declared condition pass other l)

  -- the cases of `RecNamedTarget`
  unfoldable pub rec_goto : Action Stmt
  rec_goto = do
    l ← line
    move_check identifier
    name ← lexeme
    move_check_move semicolon
    pure (gotolabel name l)

  unfoldable pub rec_return : ℕ → Action Stmt
  rec_return fuel = do
    l ← line
    get_next
    on semicolon (do get_next; pure (returnstmt none l))
        (do e ← rec_assignment calls fuel; check_move semicolon; pure (returnstmt (some e) l))

  -- `RecNamedTarget`
  unfoldable pub rec_named_target : ℕ → Action Stmt
  rec_named_target fuel = on goto_kw rec_goto (on return_kw (rec_return fuel) abort)

  -- a case of `RecAnonymousTarget`
  unfoldable pub rec_target : (ℕ → Stmt) → Action Stmt
  rec_target node = do l ← line; move_check_move semicolon; pure (node l)

  -- `RecAnonymousTarget`
  unfoldable pub rec_anonymous_target : Action Stmt
  rec_anonymous_target = on break_kw (rec_target breakstmt) (
      on continue_kw (rec_target continuestmt)
        (on fallthrough_kw (rec_target fallthroughstmt) abort))

  -- `RecLabel`
  unfoldable pub rec_label : Action Stmt
  rec_label = do
    assert_token label_kw
    l ← line
    move_check identifier
    name ← lexeme
    move_check_move colon
    target ← calls.rec_stmt
    pure (label name target l)

  -- `RecExprStmt`
  unfoldable pub rec_expr_stmt : ℕ → Action Stmt
  rec_expr_stmt fuel = do
    l ← line
    e ← rec_assignment calls fuel
    check_move semicolon
    pure (exprstmt e l)

  -- `RecStmt`
  unfoldable pub rec_stmt : ℕ → Action Stmt
  rec_stmt fuel = on left_brace (rec_block fuel) (
      on for_kw (rec_for_loop fuel) (
        on while_kw (rec_while_loop fuel) (
          on switch_kw (rec_switch fuel) (
            on if_kw (rec_branch fuel) (
              on_any (λ t. same_type return_kw t || same_type goto_kw t) (rec_named_target fuel)
                (on_any
                  (λ t.
                    same_type break_kw t || same_type continue_kw t || same_type fallthrough_kw t)
                  rec_anonymous_target
                  (on label_kw rec_label (on semicolon throw_error (rec_expr_stmt fuel)))))))))

-- all that a run computes with
unfoldable pub running : Unit {0}
unfolding missing_brace rec_fiat parse_fiats rec_block rec_for_init rec_for_loop braced
    rec_while_loop rec_case tests_loop nonempty_tests rec_tests rec_switch rec_short_var rec_fail
    rec_branch rec_goto rec_return rec_named_target rec_target rec_anonymous_target rec_label
    rec_expr_stmt rec_stmt
running = tt
