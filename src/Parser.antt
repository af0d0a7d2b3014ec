-- ===== src/Parser.antt =====
-- src/parser.c: recursive descent, from the tokens of the channel to the tree of a module.
pub mod Tree
pub mod Actions
pub mod Expressions
pub mod Declarations
pub mod Statements
pub mod Runs
pub mod Stops
pub mod Tokens
pub mod Attempts
pub mod Expected
pub mod TypeRuns
pub mod ExprRuns
pub mod DeclRuns
pub mod FiatRuns
pub mod StmtRuns
pub mod Recovery
pub mod Chains
pub mod Sums
pub mod Reads
pub mod Decides
pub mod Caught
use lemon.Base.{
  ℕ, zero, suc, Bool, true, false, Option, none, some, List, [], ◌∷◌, length, ◌==◌, if◌then◌else◌,
}
use lemon.Parser.Actions.{
  Parser, Result, ok, thrown, aborted, past_eof, out_of_fuel, Action, pure, ◌>>=◌, ◌>>◌, on,
  assert_token, line, lexeme, get_next, move_check, attempt,
}
use lemon.Parser.Declarations.{rec_decl}
use lemon.Parser.Expressions.{Calls, rec_type, rec_assignment, rec_unary, rec_access}
use lemon.Parser.Statements.{rec_stmt, rec_block, rec_branch}
use lemon.Parser.Tree.{CString, Import, Decl, Module}
use lemon.Scanner
use lemon.Scanner.{Scanner, Outcome, finished, assert_failed, scan}
use lemon.Token.{TokenType, Token, invalid, eof, literal_str, import_kw}

-- the functions of the parser with fuel for so many calls, one inside another
unfoldable pub knot : ℕ → Calls
knot zero = record {
  rec_type = λ s. out_of_fuel;
  rec_assignment = λ s. out_of_fuel;
  rec_unary = λ s. out_of_fuel;
  rec_access = λ prev s. out_of_fuel;
  rec_decl = λ s. out_of_fuel;
  rec_stmt = λ s. out_of_fuel;
  rec_block = λ s. out_of_fuel;
  rec_branch = λ s. out_of_fuel;
}
knot (suc fuel) =
    let calls = knot fuel in
    record {
      rec_type = rec_type calls;
      rec_assignment = rec_assignment calls (suc fuel);
      rec_unary = rec_unary calls (suc fuel);
      rec_access = rec_access calls (suc fuel);
      rec_decl = rec_decl calls (suc fuel);
      rec_stmt = rec_stmt calls (suc fuel);
      rec_block = rec_block calls (suc fuel);
      rec_branch = rec_branch calls (suc fuel);
    }

-- `RecImport`
unfoldable pub rec_import : Action Import
rec_import = do
  assert_token import_kw
  move_check literal_str
  alias ← lexeme
  l ← line
  get_next
  pure (record { alias = alias; line = l })

-- what the `Try` of a loop leaves in its vector
abbrev pub push_read {ℓ} : {A : Type ℓ} → Option A → List A → List A
push_read none xs = xs
push_read (some x) xs = x ∷ xs

-- the loops of `RecursiveDescent`
unfoldable pub import_loop : ℕ → Action (List Import)
import_loop zero = λ s. out_of_fuel
import_loop (suc fuel) =
    let later = import_loop fuel in
    on import_kw (do node ← attempt true rec_import; others ← later; pure (push_read node others))
      (pure [])

unfoldable pub decl_loop : ℕ → Calls → Action (List Decl)
decl_loop zero calls = λ s. out_of_fuel
decl_loop (suc fuel) calls =
    let later = decl_loop fuel calls in
    on eof (pure [])
      (do node ← attempt true calls.rec_decl; others ← later; pure (push_read node others))

-- `RecursiveDescent`, with fuel for its loops and calls
unfoldable pub recursive_descent : ℕ → CString → Action Module
recursive_descent fuel alias = do
  get_next
  imports ← import_loop fuel
  declarations ← decl_loop fuel (knot fuel)
  pure (record { imports = imports; declarations = declarations; alias = alias })

-- the state that `ParserInit` leaves, with `INVALID_TOKEN`
unfoldable pub parser_init : List Token → Parser
parser_init tokens = record {
  tok = record {
    view = none;
    len = 0;
    type = invalid;
    line = 0;
    valid = false;
    bad_string = false;
  };
  rest = tokens;
  errors = 0;
}

-- what `SyntaxTreeInit` comes to: a tree, or NULL for a text with errors; or the program stops
pub data SyntaxTree : Type 0 where
  tree : Module → SyntaxTree
  ill_formed stopped past_channel no_fuel : SyntaxTree

unfoldable pub checked : Result Module → SyntaxTree
checked (ok root s) = if s.errors == 0 then tree root else ill_formed
checked (thrown s) = stopped
checked aborted = stopped
checked past_eof = past_channel
checked out_of_fuel = no_fuel

-- the parser's half of `SyntaxTreeInit`
unfoldable pub parse : CString → List Token → SyntaxTree
parse alias tokens = checked (recursive_descent (suc (length tokens)) alias (parser_init tokens))

-- the parser behind the scanner's thread, by how that ends
unfoldable pub parse_sent : CString → Outcome → SyntaxTree
parse_sent filename (finished s) = parse filename s.sent
parse_sent filename assert_failed = stopped
parse_sent filename Scanner.out_of_fuel = no_fuel

-- `SyntaxTreeInit` on the text of the file
unfoldable pub syntax_tree_init : CString → List ℕ → SyntaxTree
syntax_tree_init filename src = parse_sent filename (scan src)

-- all that a run of the parser computes with
unfoldable pub running : Unit {0}
unfolding Actions.running Expressions.running Declarations.running Statements.running knot
    rec_import import_loop decl_loop recursive_descent parser_init checked parse parse_sent
    syntax_tree_init Scanner.running
running = tt
