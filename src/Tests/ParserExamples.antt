-- ===== src/Tests/ParserExamples.antt =====
-- The theorems on the parser at concrete texts.
use lemon.Base.{◌&&◌, not, ℕ, ◌≡◌, inl, inr, refl, true, false, some, List, [], ◌∷◌, codes, arith}
use lemon.Parser
use lemon.Parser.{knot, recursive_descent, parse, tree, syntax_tree_init}
use lemon.Parser.Actions.{Parser, synchronize}
use lemon.Parser.Decides.{
  Decided, Complete, parse_total, syntax_tree_init_total, parse-tree, rec_stmt-After,
  rec_decl-After,
}
use lemon.Parser.Caught.{IsCaught, recursive_descent-IsCaught}
use lemon.Parser.Chains.{chain, Reads, binary_level-Reads}
use lemon.Parser.Sums.{
  ends_operand, Number, Product, Plus, by_star, by_minus, number_chunk, product_chunk, times_links,
  plus_links, number-Reads, times-AllLinked, rec_term-Reads,
}
use lemon.Parser.Expressions.{binary_level, rec_unary, rec_term, is_factor, is_term}
use lemon.Parser.Expected.{starts_decl}
use lemon.Parser.Recovery.{Skips, synchronize_lem}
use lemon.Parser.Runs.{HasEof, After}
use lemon.Parser.Tree.{Module, base, variable, lit}
use lemon.Token.{
  TokenType, Token, eof, invalid, identifier, let_kw, colon, equal, semicolon, plus, break_kw,
  literal_int,
}

abbrev word : TokenType → List ℕ → Token
word type text = record {
  view = some (record { at = 0; text = text });
  len = 1;
  type = type;
  line = 1;
  valid = true;
  bad_string = false;
}

-- let x : t = 1 ;
abbrev declaration : List Token
declaration =
    word let_kw (codes "let")
    ∷ word identifier (codes "x")
    ∷ word colon (codes ":")
    ∷ word identifier (codes "t")
    ∷ word equal (codes "=")
    ∷ word literal_int (codes "1")
    ∷ word semicolon (codes ";")
    ∷ word eof (codes "")
    ∷ []

abbrev declaration_ends : HasEof declaration
declaration_ends = inr (inr (inr (inr (inr (inr (inr (inl refl)))))))

abbrev declared : Module
declared = record {
  imports = [];
  declarations =
      variable (codes "x") (base (codes "t") 1) (lit (codes "1") literal_int 1) false false 1 ∷ [];
  alias = codes "m";
}

-- break ; at the end of a text
abbrev at_break : Parser
at_break = record {
  tok = word break_kw (codes "break");
  rest = word semicolon (codes ";") ∷ word eof (codes "") ∷ [];
  errors = 0;
}

abbrev at_let : Parser
at_let = record {
  tok = word let_kw (codes "let");
  rest = word plus (codes "+") ∷ word eof (codes "") ∷ [];
  errors = 0;
}

-- + # let: one invalid token before the sequence point
abbrev astray : Parser
astray = record {
  tok = word plus (codes "+");
  rest = word invalid (codes "#") ∷ word let_kw (codes "let") ∷ word eof (codes "") ∷ [];
  errors = 2;
}

parse_total_example : Decided (parse (codes "m") declaration)
parse_total_example = parse_total (codes "m") declaration declaration_ends

syntax_tree_init_total_example : Decided (syntax_tree_init (codes "m") (codes "let x: t = 1;"))
syntax_tree_init_total_example = syntax_tree_init_total (codes "m") (codes "let x: t = 1;")

declaration_parses : parse (codes "m") declaration ≡ tree declared
unfolding Parser.running
declaration_parses = refl

parse-tree_example : (s : Parser) × Complete (codes "m") declaration declared s
parse-tree_example = parse-tree (codes "m") declaration declaration_ends declared declaration_parses

rec_stmt-After_example : After true false at_break ((knot 3).rec_stmt at_break)
rec_stmt-After_example = rec_stmt-After 3 at_break (inr (inr (inl refl))) (omega arith)

rec_decl-After_example :
    After true false at_let ((knot 3).rec_decl at_let)
    × (starts_decl let_kw ≡ true → After true true at_let ((knot 3).rec_decl at_let))
rec_decl-After_example = rec_decl-After 3 at_let (inr (inr (inl refl))) (omega arith)

synchronize_lem_example :
    Skips false (astray.tok ∷ astray.rest) astray.errors (synchronize false astray)
synchronize_lem_example = synchronize_lem false astray (inr (inr (inr (inl refl))))

abbrev number : List ℕ → Number
number text = record { view = record { at = 0; text = text }; len = 1; line = 1 }

-- 1 * 2 - 3
abbrev product : Product
product = record {
  head = number (codes "1");
  tail =
      record {
        operator = by_star;
        view = record { at = 0; text = codes "*" };
        line = 1;
        number = number (codes "2");
      }
      ∷ [];
}

abbrev subtracted : List Plus
subtracted =
    record {
      operator = by_minus;
      view = record { at = 0; text = codes "-" };
      line = 1;
      product = record { head = number (codes "3"); tail = [] };
    }
    ∷ []

rec_term-Reads_example :
    Reads
      (λ u. (ends_operand u && not (is_factor u)) && not (is_term u))
      (rec_term (knot 2) 2)
      (chain (product_chunk product) (plus_links subtracted))
rec_term-Reads_example =
    rec_term-Reads (knot 2) 2 product subtracted (omega arith) (omega arith, tt) (omega arith)

-- 1 * 2
binary_level-Reads_example :
    Reads
      (λ u. ends_operand u && not (is_factor u))
      (binary_level 2 is_factor (rec_unary (knot 2) 2))
      (chain (number_chunk product.head) (times_links product.tail))
binary_level-Reads_example =
    binary_level-Reads is_factor ends_operand (rec_unary (knot 2) 2) 2 (number_chunk product.head)
      (times_links product.tail) (number-Reads (knot 2) 2 product.head)
      (times-AllLinked (knot 2) 2 product.tail) (omega arith)

recursive_descent-IsCaught_example : IsCaught (recursive_descent 4 (codes "m") at_let)
recursive_descent-IsCaught_example = recursive_descent-IsCaught 4 (codes "m") at_let
