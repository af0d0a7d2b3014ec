-- ===== src/Parser/DeclRuns.antt =====
-- The declarations of src/parser.c take a token when they return, and in any case where they start.
use lemon.Base.{ℕ, zero, suc, ◌≡◌, ◌≤◌, refl, Bool, true, false, not, ◌&&◌, List, [], ◌∷◌, arith}
use lemon.Parser.Actions.{Action, ◌>>=◌, ◌>>◌, same_type, check, lexeme}
use lemon.Parser.Declarations.{
  optional, members_loop, nonempty_members, rec_parse_members, parameters_loop, nonempty_parameters,
  rec_parse_parameters, rec_struct, rec_parameter_list, rec_return_type, rec_function, rec_method,
  rec_variable, rec_decl,
}
use lemon.Parser.Expected.{Works, starts_decl}
use lemon.Parser.Expressions.{Calls, rec_type}
use lemon.Parser.ExprRuns.{rec_assignment-Runs}
use lemon.Parser.Runs.{
  Runs, any, takes, keeps, fewer, stay_then, take_then, keep_then, keep_at, pure-Runs, throw-Runs,
  branch-Runs, on-Runs, else-Runs, nowhere, line-Stays, lexeme-Stays, vacuous, at_most,
}
use lemon.Parser.Stops.{check-Stops}
use lemon.Parser.Tokens.{
  get_next-Runs, get_next_keeps, assert_then, check-Runs, check_move-Runs, move_check_move-Runs,
}
use lemon.Parser.Tree.{Member, Param}
use lemon.Parser.TypeRuns.{rec_type-Runs, separator-Runs}
use lemon.Token.{
  TokenType, eof, identifier, semicolon, left_paren, right_paren, left_brace, right_brace, colon,
  equal, minus, greater, struct_kw, func_kw, method_kw, let_kw, mut_kw, pub_kw,
}

pub optional-Runs :
    {q : TokenType → Bool} {k : ℕ} (t : TokenType)
    → same_type t eof ≡ false
    → Runs q false false k (optional t)
unfolding optional
optional-Runs t not_eof =
    branch-Runs (keep_then (get_next_keeps not_eof) (λ _. pure-Runs)) pure-Runs

-- a name with a mark behind it
name_then {ℓ} :
    {A : Type ℓ} {k : ℕ} {q : TokenType → Bool} {o : Bool} (mark : TokenType)
    {f : List ℕ → Action A}
    → same_type mark eof ≡ false
    → ((name : List ℕ) → Runs (same_type identifier) o false k (f name))
    → Runs q o false k (check identifier >> (lexeme >>= f))
name_then mark not_eof h =
    keep_at (check-Runs identifier) (check-Stops identifier) (λ _. stay_then lexeme-Stays h)

module _ (calls : Calls) (n : ℕ) (works : Works calls n) where
  members_loop-Runs :
      (fuel k : ℕ) → k ≤ fuel → k ≤ n → Runs any false false k (members_loop calls fuel)
  unfolding members_loop
  members_loop-Runs fuel zero le le' = vacuous _
  members_loop-Runs zero (suc k) le le' = absurd (omega (arith, le))
  members_loop-Runs (suc fuel) (suc k) le le' = branch-Runs pure-Runs (
      keep_then (optional-Runs pub_kw refl) (λ public.
        keep_at (check-Runs identifier) (check-Stops identifier) (λ _. keeps (
          stay_then lexeme-Stays (λ name. stay_then line-Stays (λ l.
            take_then (move_check_move-Runs colon refl refl) (λ _.
              keep_then
                (keeps (at_most k (omega (arith, le')) (fewer (rec_type-Runs calls n works))))
                (λ typ. keep_then (keeps (check_move-Runs semicolon refl)) (λ _.
                  keep_then (members_loop-Runs fuel k (omega (arith, le)) (omega (arith, le')))
                    (λ others. pure-Runs))))))))))

  parameters_loop-Runs :
      (fuel k : ℕ)
      → k ≤ fuel
      → k ≤ n
      → (more : Bool) → Runs any false false k (parameters_loop calls fuel more)
  unfolding parameters_loop
  parameters_loop-Runs fuel zero le le' more = vacuous _
  parameters_loop-Runs zero (suc k) le le' more = absurd (omega (arith, le))
  parameters_loop-Runs (suc fuel) (suc k) le le' more = branch-Runs pure-Runs (
      keep_then (separator-Runs more) (λ _. keep_then (optional-Runs mut_kw refl) (λ mutable.
        keep_at (check-Runs identifier) (check-Stops identifier) (λ _. keeps (
          stay_then lexeme-Stays (λ name. stay_then line-Stays (λ l.
            take_then (move_check_move-Runs colon refl refl) (λ _.
              keep_then
                (keeps (at_most k (omega (arith, le')) (fewer (rec_type-Runs calls n works))))
                (λ typ.
                  keep_then
                    (parameters_loop-Runs fuel k (omega (arith, le)) (omega (arith, le')) true)
                    (λ others. pure-Runs))))))))))

  nonempty_members-Runs : (ms : List Member) → Runs any false false n (nonempty_members calls ms)
  unfolding nonempty_members
  nonempty_members-Runs [] = throw-Runs
  nonempty_members-Runs (m ∷ ms) = pure-Runs

  nonempty_parameters-Runs :
      (ps : List Param) → Runs any false false n (nonempty_parameters calls ps)
  unfolding nonempty_parameters
  nonempty_parameters-Runs [] = throw-Runs
  nonempty_parameters-Runs (p ∷ ps) = pure-Runs

  rec_parse_members-Runs : Runs any false false n (rec_parse_members calls (suc n))
  unfolding rec_parse_members
  rec_parse_members-Runs =
      keep_then (members_loop-Runs (suc n) n (omega arith) (omega arith)) nonempty_members-Runs

  rec_parse_parameters-Runs : Runs any false false n (rec_parse_parameters calls (suc n))
  unfolding rec_parse_parameters
  rec_parse_parameters-Runs =
      keep_then (parameters_loop-Runs (suc n) n (omega arith) (omega arith) false)
        nonempty_parameters-Runs

  type_keeps : Runs any false false n (rec_type calls)
  type_keeps = keeps (fewer (rec_type-Runs calls n works))

  rec_parameter_list-Runs : Runs any false false n (rec_parameter_list calls (suc n))
  unfolding rec_parameter_list
  rec_parameter_list-Runs =
      keep_then
        (branch-Runs (keep_then (get_next_keeps refl) (λ _. pure-Runs)) rec_parse_parameters-Runs)
        (λ params. keep_then (keeps (check_move-Runs right_paren refl)) (λ _. pure-Runs))

  rec_return_type-Runs : Runs any false false n (rec_return_type calls)
  unfolding rec_return_type
  rec_return_type-Runs = keep_then (keeps (check_move-Runs minus refl)) (λ _.
      keep_then (keeps (check_move-Runs greater refl)) (λ _.
        branch-Runs (keep_then (get_next_keeps refl) (λ _. pure-Runs))
          (keep_then type_keeps (λ ret. pure-Runs))))

  -- the signature of a function or method behind its name, and its body
  rec_struct-Runs : {q : TokenType → Bool} → Runs q true true (suc n) (rec_struct calls (suc n))
  unfolding rec_struct
  rec_struct-Runs = assert_then struct_kw (
      stay_then line-Stays (λ l. take_then (get_next-Runs refl) (λ _.
        keep_then (optional-Runs pub_kw refl) (λ public.
          keep_at (check-Runs identifier) (check-Stops identifier) (λ _.
            stay_then lexeme-Stays (λ name.
              keep_then (keeps (move_check_move-Runs left_brace refl refl)) (λ _.
                keep_then rec_parse_members-Runs (λ members.
                  keep_then (keeps (check_move-Runs right_brace refl)) (λ _.
                    keep_then (keeps (check_move-Runs semicolon refl)) (λ _. pure-Runs))))))))))

  rec_function-Runs : {q : TokenType → Bool} → Runs q true true (suc n) (rec_function calls (suc n))
  unfolding rec_function
  rec_function-Runs = assert_then func_kw (
      stay_then line-Stays (λ l. take_then (get_next-Runs refl) (λ _.
        keep_then (optional-Runs pub_kw refl) (λ public.
          keep_at (check-Runs identifier) (check-Stops identifier) (λ _.
            stay_then lexeme-Stays (λ name.
              keep_then (keeps (move_check_move-Runs left_paren refl refl)) (λ _.
                keep_then rec_parameter_list-Runs (λ params. keep_then rec_return_type-Runs (λ ret.
                  keep_then (check-Runs left_brace)
                    (λ _. keep_then (keeps works.block_runs) (λ body. pure-Runs)))))))))))

  rec_method-Runs : {q : TokenType → Bool} → Runs q true true (suc n) (rec_method calls (suc n))
  unfolding rec_method
  rec_method-Runs = assert_then method_kw (
      stay_then line-Stays (λ l. take_then (get_next-Runs refl) (λ _.
        keep_then (optional-Runs pub_kw refl) (λ public.
          keep_then (keeps (check_move-Runs left_paren refl)) (λ _. keep_then type_keeps (λ recv.
            keep_then (keeps (check_move-Runs right_paren refl)) (λ _.
              keep_at (check-Runs identifier) (check-Stops identifier) (λ _.
                stay_then lexeme-Stays (λ name.
                  keep_then (keeps (move_check_move-Runs left_paren refl refl)) (λ _.
                    keep_then rec_parameter_list-Runs (λ params.
                      keep_then rec_return_type-Runs (λ ret.
                        keep_then (check-Runs left_brace)
                          (λ _. keep_then (keeps works.block_runs) (λ body. pure-Runs))))))))))))))

  pub rec_variable-Runs :
      {q : TokenType → Bool} → Runs q true true (suc n) (rec_variable calls (suc n))
  unfolding rec_variable
  rec_variable-Runs = assert_then let_kw (
      stay_then line-Stays (λ l. take_then (get_next-Runs refl) (λ _.
        keep_then (optional-Runs pub_kw refl) (λ public.
          keep_then (optional-Runs mut_kw refl) (λ mutable.
            keep_at (check-Runs identifier) (check-Stops identifier) (λ _.
              stay_then lexeme-Stays (λ name.
                keep_then (keeps (move_check_move-Runs colon refl refl)) (λ _.
                  keep_then type_keeps (λ vartype.
                    keep_then (keeps (check_move-Runs equal refl)) (λ _.
                      keep_then (fewer (keeps (rec_assignment-Runs calls n works))) (λ value.
                        keep_then (keeps (check_move-Runs semicolon refl))
                          (λ _. pure-Runs))))))))))))

  -- `RecDecl`
  pub rec_decl-Runs : Runs any true false (suc n) (rec_decl calls (suc n))
  unfolding rec_decl
  rec_decl-Runs = on-Runs struct_kw (takes rec_struct-Runs) (
      on-Runs func_kw (takes rec_function-Runs) (
        on-Runs method_kw (takes rec_method-Runs)
          (on-Runs let_kw (takes rec_variable-Runs) throw-Runs)))

  decl_starts_only :
      (u : TokenType)
      → ((((starts_decl u && not (same_type struct_kw u)) && not (same_type func_kw u))
            && not (same_type method_kw u))
          && not (same_type let_kw u))
        ≡ true
      → ⊥
  decl_starts_only u at = grind arith

  pub rec_decl_moves : Runs starts_decl true true (suc n) (rec_decl calls (suc n))
  unfolding rec_decl
  rec_decl_moves = else-Runs (same_type struct_kw) rec_struct-Runs (
      else-Runs (same_type func_kw) rec_function-Runs (
        else-Runs (same_type method_kw) rec_method-Runs
          (else-Runs (same_type let_kw) rec_variable-Runs (nowhere decl_starts_only))))
