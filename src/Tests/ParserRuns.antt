-- ===== src/Tests/ParserRuns.antt =====
-- Runs of the scanner and the parser together.
use lemon.Base.{◌≡◌, refl, false, [], ◌∷◌, codes}
use lemon.Parser
use lemon.Parser.{SyntaxTree, tree, ill_formed, stopped, syntax_tree_init}
use lemon.Parser.Tree.{base, variable, binary, lit, unary}
use lemon.Token.{plus, star, literal_int, minus}

expr_run :
    syntax_tree_init (codes "m") (codes "let x: t = 1 + 2 * -3;\n")
    ≡ tree (record {
      imports = [];
      declarations =
          variable
            (codes "x")
            (base (codes "t") 1)
            (binary
              (lit (codes "1") literal_int 1)
              (binary
                (lit (codes "2") literal_int 1)
                (unary (lit (codes "3") literal_int 1) minus 1)
                star
                1)
              plus
              1)
            false
            false
            1
          ∷ [];
      alias = codes "m";
    })
unfolding Parser.running
expr_run = refl

empty_string : syntax_tree_init (codes "m") (codes "let x: t = \"\";\n") ≡ stopped
unfolding Parser.running
empty_string = refl

open_body : syntax_tree_init (codes "m") (codes "func f(void) -> void {\n") ≡ stopped
unfolding Parser.running
open_body = refl

bad_loop :
    syntax_tree_init (codes "m") (codes "func f(void) -> void { for (x; y; z) g(); } ") ≡ stopped
unfolding Parser.running
bad_loop = refl

bad_tilde : syntax_tree_init (codes "m") (codes "let x: t = a ~ b;\n") ≡ stopped
unfolding Parser.running
bad_tilde = refl

two_errors : syntax_tree_init (codes "m") (codes "let x t = 1; let y: t = 2;\n") ≡ ill_formed
unfolding Parser.running
two_errors = refl
