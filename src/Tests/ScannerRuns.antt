-- ===== src/Tests/ScannerRuns.antt =====
-- Runs of the scanner, and its properties at concrete texts.
use lemon.Base.{ℕ, ◌≡◌, refl, Option, none, some, List, [], ◌∷◌, codes, take}
use lemon.Scanner
use lemon.Scanner.{Outcome, finished, assert_failed, out_of_fuel, scan}
use lemon.Token.{
  TokenType, Token, let_kw, identifier, equal, semicolon, literal_str, invalid, eof, lshift, leq,
  literal_float,
}

-- what the debugging print shows of a token: its type, its lexeme and its line
abbrev show_token : Token → TokenType × List ℕ × ℕ
show_token t = (t.type, elim t.view [ none ↦ [] | some p ↦ take t.len p.text ], t.line)

abbrev show_tokens : List Token → List (TokenType × List ℕ × ℕ)
show_tokens [] = []
show_tokens (t ∷ ts) = show_token t ∷ show_tokens ts

abbrev show : Outcome → Option (List (TokenType × List ℕ × ℕ))
show (finished s) = some (show_tokens s.sent)
show assert_failed = none
show out_of_fuel = none

declaration-Runs :
    show (scan (codes "let x1 = 3.5; # c\n<<<= "))
    ≡ some (
        (let_kw, codes "let", 1)
        ∷ (identifier, codes "x1", 1)
        ∷ (equal, codes "=", 1)
        ∷ (literal_float, codes "3.5", 1)
        ∷ (semicolon, codes ";", 1)
        ∷ (lshift, codes "<<", 2)
        ∷ (leq, codes "<=", 2)
        ∷ (eof, [], 2)
        ∷ [])
unfolding Scanner.running
declaration-Runs = refl

-- a word that only begins like a keyword, and an unterminated string
words_run :
    show (scan (codes "lets \"a b"))
    ≡ some ((identifier, codes "lets", 1) ∷ (invalid, codes "\"a", 1) ∷ (eof, [], 1) ∷ [])
unfolding Scanner.running
words_run = refl

-- the assertion of `ConsumeIfPeek` fails where the text ends with an operator character
cut_run : scan (codes "x =") ≡ assert_failed
unfolding Scanner.running
cut_run = refl

-- the line feed inside the literal is not counted
line_run :
    show (scan (codes "\"a\nb\" c"))
    ≡ some ((literal_str, codes "a\nb", 1) ∷ (identifier, codes "c", 1) ∷ (eof, [], 1) ∷ [])
unfolding Scanner.running
line_run = refl
