-- ===== src/Parser/Expressions.antt =====
-- The types and expressions of src/parser.c.
--
-- The functions of the parser call one another in a circle. `Calls` holds those through which every
-- circle passes, and each function takes it as a parameter; `Knot` ties it, on fuel, a unit for each call.
-- A loop takes fuel too, a unit for each round.
use lemon.Base.{ℕ, zero, suc, Bool, true, false, Option, none, some, List, [], ◌∷◌}
use lemon.Parser.Actions.{
  out_of_fuel, Action, pure, gets, throw_error, ◌>>=◌, ◌>>◌, pick, on_any, on, same_type,
  assert_token, line, current_type, lexeme, lexeme_of, get_next, check_move, move_check,
  move_check_move, extract_array_index,
}
use lemon.Parser.Tree.{
  TypeNode, base, named, pointer, array, Expr, assignment, binary, unary, cast, call, selector,
  index, arraylit, rvarlit, lit, ident, Exprs, no_exprs, expr_then, Decl, Stmt,
}
use lemon.Token.{
  TokenType, identifier, literal_int, literal_float, literal_str, left_bracket, right_bracket,
  left_paren, right_paren, dot, tilde, comma, colon, equal, equal_equal, not_equal, logical_not,
  logical_and, logical_or, bitwise_not, ampersand, bitwise_or, bitwise_xor, lshift, rshift, greater,
  geq, less, leq, plus, minus, star, slash, modulo, null_kw, self_kw, true_kw, false_kw,
}

pub record Calls : Type 0 where
  pub rec_type : Action TypeNode
  pub rec_assignment : Action Expr
  pub rec_unary : Action Expr
  pub rec_access : Expr → Action Expr
  pub rec_decl : Action Decl
  pub rec_stmt : Action Stmt
  pub rec_block : Action Stmt
  pub rec_branch : Action Stmt

-- the operators of each level of binary expressions
abbrev pub is_equality : TokenType → Bool
is_equality greater = true
is_equality less = true
is_equality geq = true
is_equality leq = true
is_equality equal_equal = true
is_equality not_equal = true
is_equality _ = false

abbrev pub is_term : TokenType → Bool
is_term plus = true
is_term minus = true
is_term bitwise_or = true
is_term bitwise_xor = true
is_term _ = false

abbrev pub is_factor : TokenType → Bool
is_factor star = true
is_factor slash = true
is_factor modulo = true
is_factor lshift = true
is_factor rshift = true
is_factor ampersand = true
is_factor _ = false

abbrev pub is_unary : TokenType → Bool
is_unary minus = true
is_unary plus = true
is_unary bitwise_not = true
is_unary logical_not = true
is_unary star = true
is_unary ampersand = true
is_unary _ = false

abbrev pub is_literal : TokenType → Bool
is_literal literal_int = true
is_literal literal_float = true
is_literal literal_str = true
is_literal null_kw = true
is_literal self_kw = true
is_literal true_kw = true
is_literal false_kw = true
is_literal _ = false

-- the loop of `RecLogicalOr`, `RecLogicalAnd`, `RecEquality`, `RecTerm` and `RecFactor`
unfoldable pub binary_loop : ℕ → (TokenType → Bool) → Action Expr → Expr → Action Expr
binary_loop zero is_operator operand node = λ s. out_of_fuel
binary_loop (suc fuel) is_operator operand node =
    let later = binary_loop fuel is_operator operand in
    on_any is_operator
      (do
        operator ← current_type
        l ← line
        get_next
        right ← operand
        later (binary node right operator l))
      (pure node)

unfoldable pub binary_level : ℕ → (TokenType → Bool) → Action Expr → Action Expr
binary_level fuel is_operator operand = do node ← operand; binary_loop fuel is_operator operand node

-- the test that a type behind a dot is no named type again
unfoldable pub base_type : TypeNode → Action TypeNode
base_type (base name l) = pure (base name l)
base_type _ = throw_error

-- `RecIdentifier`
unfoldable pub rec_identifier : Action Expr
rec_identifier = do assert_token identifier; l ← line; name ← lexeme; pure (ident name l)

-- the key of an element of an array literal, if it has one
unfoldable pub rec_key : Action (Option ℕ)
rec_key =
    on left_bracket
      (do
        move_check literal_int
        idx ← extract_array_index
        move_check_move right_bracket
        check_move equal
        pure (some idx))
      (pure none)

-- the case of a literal in `RecPrimary`
unfoldable pub rec_literal : Action Expr
rec_literal = do l ← line; rep ← lexeme; littype ← current_type; get_next; pure (lit rep littype l)

module _ (calls : Calls) where
  -- the case of an identifier in `RecType`
  unfoldable pub rec_named : Action TypeNode
  rec_named = do
    l ← line
    prev_name ← lexeme
    get_next
    on dot
        (do
          move_check identifier
          reference ← calls.rec_type
          _ ← base_type reference
          pure (named prev_name reference l))
        (pure (base prev_name l))

  unfoldable pub rec_pointer : Action TypeNode
  rec_pointer = do l ← line; get_next; reference ← calls.rec_type; pure (pointer reference l)

  unfoldable pub rec_array : Action TypeNode
  rec_array = do
    l ← line
    move_check literal_int
    len ← extract_array_index
    move_check_move right_bracket
    element ← calls.rec_type
    pure (array element len l)

  -- `RecType`
  unfoldable pub rec_type : Action TypeNode
  rec_type = on identifier rec_named (on star rec_pointer (on left_bracket rec_array throw_error))

  -- the loop of `RecArguments`, by whether an argument was read
  unfoldable pub arguments_loop : ℕ → Bool → Action Exprs
  arguments_loop zero more = λ s. out_of_fuel
  arguments_loop (suc fuel) more =
      let later = arguments_loop fuel true in
      on right_paren (pure no_exprs) (do
        pick more (check_move comma) (pure tt)
        arg ← calls.rec_assignment
        args ← later
        pure (expr_then arg args))

  -- `RecArguments`
  unfoldable pub rec_arguments : ℕ → Action Exprs
  rec_arguments fuel = do
    assert_token left_paren
    get_next
    args ← arguments_loop fuel false
    get_next
    pure args

  -- `RecRvar`, once the tilde was read; `name` and `l` are of the identifier before it
  unfoldable pub rec_rvar : ℕ → List ℕ → ℕ → Action Expr
  rec_rvar fuel name l = do get_next; args ← rec_arguments fuel; pure (rvarlit name args l)

  -- `RecRvarOrIdentifier`; the token that is put back is read once more for its lexeme and line only
  unfoldable pub rec_rvar_or_identifier : ℕ → Action Expr
  rec_rvar_or_identifier fuel = do
    assert_token identifier
    l ← line
    prev ← gets (λ s. s.tok)
    get_next
    name ← lexeme_of prev.view prev.len
    on tilde (rec_rvar fuel name l) (pure (ident name l))

  -- the loop of `RecArrayLiteral`, by whether an element was read
  unfoldable pub array_loop : ℕ → Bool → Action (List (Option ℕ) × Exprs)
  array_loop zero more = λ s. out_of_fuel
  array_loop (suc fuel) more =
      let later = array_loop fuel true in
      on right_bracket (pure ([], no_exprs)) (do
        pick more (check_move comma) (pure tt)
        key ← rec_key
        value ← calls.rec_assignment
        others ← later
        pure (key ∷ others.0, expr_then value others.1))

  -- `RecArrayLiteral`
  unfoldable pub rec_array_literal : ℕ → Action Expr
  rec_array_literal fuel = do
    assert_token left_bracket
    l ← line
    get_next
    elements ← array_loop fuel false
    get_next
    pure (arraylit elements.0 elements.1 l)

  -- the cases of `RecAccess`
  unfoldable pub rec_selector : Expr → Action Expr
  rec_selector prev = do
    l ← line
    move_check identifier
    attr ← rec_identifier
    get_next
    calls.rec_access (selector prev attr l)

  unfoldable pub rec_call : ℕ → Expr → Action Expr
  rec_call fuel prev = do l ← line; args ← rec_arguments fuel; calls.rec_access (call prev args l)

  unfoldable pub rec_index : Expr → Action Expr
  rec_index prev = do
    l ← line
    get_next
    key ← calls.rec_assignment
    check_move right_bracket
    calls.rec_access (index prev key l)

  -- `RecAccess`
  unfoldable pub rec_access : ℕ → Expr → Action Expr
  rec_access fuel prev =
      on dot (rec_selector prev)
        (on left_paren (rec_call fuel prev) (on left_bracket (rec_index prev) (pure prev)))

  -- the other cases of `RecPrimary`
  unfoldable pub rec_grouping : Action Expr
  rec_grouping = do get_next; node ← calls.rec_assignment; check_move right_paren; pure node

  -- The message of the last case is `usererror(fmt, len, view)`, which passes the number `len` for the one
  -- `%s` of its format; what C does there is not defined, and here it is a counted error like the
  -- others.
  unfoldable pub rec_atom : ℕ → Action Expr
  rec_atom fuel = on identifier (rec_rvar_or_identifier fuel) (
      on left_bracket (rec_array_literal fuel)
        (on_any is_literal rec_literal (on left_paren rec_grouping throw_error)))

  -- `RecPrimary`, with the assertion that the token has a lexeme; the two messages of its errors are
  -- one here
  unfoldable pub rec_primary : ℕ → Action Expr
  rec_primary fuel = do _ ← lexeme; node ← rec_atom fuel; rec_access fuel node

  -- the cases of `RecUnary`
  unfoldable pub rec_prefix : Action Expr
  rec_prefix = do
    operator ← current_type
    l ← line
    get_next
    operand ← calls.rec_unary
    pure (unary operand operator l)

  unfoldable pub rec_cast : Action Expr
  rec_cast = do
    l ← line
    get_next
    casttype ← calls.rec_type
    check_move colon
    operand ← calls.rec_unary
    pure (cast operand casttype l)

  -- `RecUnary`
  unfoldable pub rec_unary : ℕ → Action Expr
  rec_unary fuel = on_any is_unary rec_prefix (on colon rec_cast (rec_primary fuel))

  -- `RecFactor`
  unfoldable pub rec_factor : ℕ → Action Expr
  rec_factor fuel = binary_level fuel is_factor (rec_unary fuel)

  -- `RecTerm`
  unfoldable pub rec_term : ℕ → Action Expr
  rec_term fuel = binary_level fuel is_term (rec_factor fuel)

  -- `RecEquality`
  unfoldable pub rec_equality : ℕ → Action Expr
  rec_equality fuel = binary_level fuel is_equality (rec_term fuel)

  -- `RecLogicalAnd`
  unfoldable pub rec_logical_and : ℕ → Action Expr
  rec_logical_and fuel = binary_level fuel (same_type logical_and) (rec_equality fuel)

  -- `RecLogicalOr`
  unfoldable pub rec_logical_or : ℕ → Action Expr
  rec_logical_or fuel = binary_level fuel (same_type logical_or) (rec_logical_and fuel)

  -- `RecAssignment`
  unfoldable pub rec_assignment : ℕ → Action Expr
  rec_assignment fuel = do
    node ← rec_logical_or fuel
    on equal (do l ← line; get_next; rvalue ← rec_logical_or fuel; pure (assignment node rvalue l))
        (pure node)

-- all that a run computes with
unfoldable pub running : Unit {0}
unfolding binary_loop binary_level base_type rec_named rec_pointer rec_array rec_type rec_identifier
    arguments_loop rec_arguments rec_rvar rec_rvar_or_identifier rec_key array_loop
    rec_array_literal rec_selector rec_call rec_index rec_access rec_literal rec_grouping rec_atom
    rec_primary rec_prefix rec_cast rec_unary rec_factor rec_term rec_equality rec_logical_and
    rec_logical_or rec_assignment
running = tt
