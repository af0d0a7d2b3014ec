-- ===== src/Parser/Declarations.antt =====
-- The declarations of src/parser.c.
use lemon.Base.{ℕ, zero, suc, Bool, true, false, Option, none, some, List, [], ◌∷◌}
use lemon.Parser.Actions.{
  out_of_fuel, Action, pure, throw_error, ◌>>=◌, ◌>>◌, pick, on, assert_token, line, lexeme,
  get_next, check, check_move, move_check_move,
}
use lemon.Parser.Expressions.{Calls, rec_type, rec_assignment}
use lemon.Parser.Tree.{TypeNode, Member, Param, Decl, udt, function, method, variable}
use lemon.Token.{
  TokenType, identifier, semicolon, left_paren, right_paren, left_brace, right_brace, comma, colon,
  equal, minus, greater, struct_kw, func_kw, method_kw, let_kw, mut_kw, pub_kw, void_kw,
}

-- an optional keyword, and whether it was there
unfoldable pub optional : TokenType → Action Bool
optional t = on t (do get_next; pure true) (pure false)

module _ (calls : Calls) where
  -- the loop of `RecParseMembers`; `public` is of the member that is being read
  unfoldable pub members_loop : ℕ → Action (List Member)
  members_loop zero = λ s. out_of_fuel
  members_loop (suc fuel) =
      let later = members_loop fuel in
      on right_brace (pure []) (do
        public ← optional pub_kw
        check identifier
        name ← lexeme
        l ← line
        move_check_move colon
        typ ← rec_type calls
        check_move semicolon
        others ← later
        pure (record { name = name; typ = typ; line = l; public = public } ∷ others))

  unfoldable pub nonempty_members : List Member → Action (List Member)
  nonempty_members [] = throw_error
  nonempty_members (m ∷ ms) = pure (m ∷ ms)

  -- `RecParseMembers`
  unfoldable pub rec_parse_members : ℕ → Action (List Member)
  rec_parse_members fuel = do vec ← members_loop fuel; nonempty_members vec

  -- the loop of `RecParseParameters`, by whether a parameter was read
  unfoldable pub parameters_loop : ℕ → Bool → Action (List Param)
  parameters_loop zero more = λ s. out_of_fuel
  parameters_loop (suc fuel) more =
      let later = parameters_loop fuel true in
      on right_paren (pure []) (do
        pick more (check_move comma) (pure tt)
        mutable ← optional mut_kw
        check identifier
        name ← lexeme
        l ← line
        move_check_move colon
        typ ← rec_type calls
        others ← later
        pure (record { name = name; typ = typ; line = l; mutable = mutable } ∷ others))

  unfoldable pub nonempty_parameters : List Param → Action (List Param)
  nonempty_parameters [] = throw_error
  nonempty_parameters (p ∷ ps) = pure (p ∷ ps)

  -- `RecParseParameters`
  unfoldable pub rec_parse_parameters : ℕ → Action (List Param)
  rec_parse_parameters fuel = do vec ← parameters_loop fuel false; nonempty_parameters vec

  -- `RecStruct`
  unfoldable pub rec_struct : ℕ → Action Decl
  rec_struct fuel = do
    assert_token struct_kw
    l ← line
    get_next
    public ← optional pub_kw
    check identifier
    name ← lexeme
    move_check_move left_brace
    members ← rec_parse_members fuel
    check_move right_brace
    check_move semicolon
    pure (udt name members public l)

  -- the parameter list of a function or method, from the token after `(` on
  unfoldable pub rec_parameter_list : ℕ → Action (List Param)
  rec_parameter_list fuel = do
    params ← on void_kw (do get_next; pure []) (rec_parse_parameters fuel)
    check_move right_paren
    pure params

  -- the arrow and the return type
  unfoldable pub rec_return_type : Action (Option TypeNode)
  rec_return_type = do
    check_move minus
    check_move greater
    on void_kw (do get_next; pure none) (do ret ← rec_type calls; pure (some ret))

  -- `RecFunction`
  unfoldable pub rec_function : ℕ → Action Decl
  rec_function fuel = do
    assert_token func_kw
    l ← line
    get_next
    public ← optional pub_kw
    check identifier
    name ← lexeme
    move_check_move left_paren
    params ← rec_parameter_list fuel
    ret ← rec_return_type
    check left_brace
    body ← calls.rec_block
    pure (function name ret body params public l)

  -- `RecMethod`; its return type is stored through the member `function`, which has the place of
  -- `method.ret`
  unfoldable pub rec_method : ℕ → Action Decl
  rec_method fuel = do
    assert_token method_kw
    l ← line
    get_next
    public ← optional pub_kw
    check_move left_paren
    recv ← rec_type calls
    check_move right_paren
    check identifier
    name ← lexeme
    move_check_move left_paren
    params ← rec_parameter_list fuel
    ret ← rec_return_type
    check left_brace
    body ← calls.rec_block
    pure (method name ret recv body params public l)

  -- `RecVariable`
  unfoldable pub rec_variable : ℕ → Action Decl
  rec_variable fuel = do
    assert_token let_kw
    l ← line
    get_next
    public ← optional pub_kw
    mutable ← optional mut_kw
    check identifier
    name ← lexeme
    move_check_move colon
    vartype ← rec_type calls
    check_move equal
    value ← rec_assignment calls fuel
    check_move semicolon
    pure (variable name vartype value mutable public l)

  -- `RecDecl`
  unfoldable pub rec_decl : ℕ → Action Decl
  rec_decl fuel = on struct_kw (rec_struct fuel) (
      on func_kw (rec_function fuel)
        (on method_kw (rec_method fuel) (on let_kw (rec_variable fuel) throw_error)))

-- all that a run computes with
unfoldable pub running : Unit {0}
unfolding optional members_loop nonempty_members rec_parse_members parameters_loop
    nonempty_parameters rec_parse_parameters rec_struct rec_parameter_list rec_return_type
    rec_function rec_method rec_variable rec_decl
running = tt
