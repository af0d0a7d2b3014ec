-- ===== src/Parser/Decides.antt =====
-- What `SyntaxTreeInit` comes to: the parser always returns or stops, and when it returns a tree.
use lemon.Base.{
  ℕ, suc, ◌≡◌, ◌<◌, ◌⊎◌, inl, inr, refl, sym, ap, ◌∙◌, subst, true, false, Bool-cases, List, [],
  ◌∷◌, ◌++◌, length, arith, ◌==◌,
}
use lemon.Parser.{
  knot, recursive_descent, parser_init, SyntaxTree, tree, ill_formed, stopped, checked, parse,
  parse_sent, syntax_tree_init,
}
use lemon.Parser.Actions.{Parser, Result, ok, thrown, aborted, past_eof, out_of_fuel, same_type}
use lemon.Parser.Expected.{starts_decl}
use lemon.Parser.Reads.{init-Runs, init-Stops, knot-Works}
use lemon.Parser.Runs.{Ready, Onward-lt, After, At, HasEof}
use lemon.Parser.Tree.{CString, Module}
use lemon.Scanner.Stream.{end_token, scan-Laid}
use lemon.Scanner.Tokens.{scan_total}
use lemon.Token.{Token, eof}

-- a tree, NULL for a text with errors, or the end of the program
abbrev pub Decided : SyntaxTree → Type 0
Decided t = ((root : Module) × (t ≡ tree root)) ⊎ ((t ≡ ill_formed) ⊎ (t ≡ stopped))

checked-Decided : (s : Parser) (r : Result Module) → After true true s r → Decided (checked r)
unfolding checked
checked-Decided s (ok root s') h = elim (Bool-cases (s'.errors == 0)) [
  | inl e ↦ inl (root, rw e refl)
  | inr e ↦ inr (inl (rw e refl))
]
checked-Decided s (thrown s') h = inr (inr refl)
checked-Decided s aborted h = inr (inr refl)
checked-Decided s past_eof h = absurd h
checked-Decided s out_of_fuel h = absurd h

-- If one of the tokens of the channel ends the text, then the parser returns a tree, or NULL for a text
-- with errors, or the program stops: it is never out of fuel, with one unit more than there are tokens
-- for the rounds of a loop and for the depth of the calls; and it never waits for a token behind the
-- last one.
pub parse_total :
    (alias : CString) (tokens : List Token) → HasEof tokens → Decided (parse alias tokens)
unfolding parse
parse_total alias tokens ends = checked-Decided (parser_init tokens) _ (init-Runs alias tokens ends)

-- For every text, the scanner and the parser behind it come to a tree, to NULL, or stop the program on an
-- assertion or an exception: the two never run for ever, and the parser never waits for a token that
-- the scanner does not send.
pub syntax_tree_init_total :
    (filename : CString) (src : List ℕ) → Decided (syntax_tree_init filename src)
unfolding syntax_tree_init parse_sent
syntax_tree_init_total filename src = elim (scan_total src) [
  | inl (s, e) ↦ rw e (
      let (ts, l, laid, _) = scan-Laid src s e in
      parse_total filename s.sent (subst HasEof (sym laid) (sent-HasEof ts l)))
  | inr e ↦ rw e (inr (inr refl))
]
  where
    sent-HasEof : (ts : List Token) (l : ℕ) → HasEof (ts ++ end_token l ∷ [])
    sent-HasEof [] l = inl refl
    sent-HasEof (t ∷ ts) l = inr (sent-HasEof ts l)

-- where a result with no errors stands: at the end of the text, behind tokens it has read
abbrev pub Complete : CString → List Token → Module → Parser → Type 0
Complete alias tokens root s =
    (recursive_descent (suc (length tokens)) alias (parser_init tokens) ≡ ok root s)
    × (s.errors ≡ 0)
    × (same_type eof s.tok.type ≡ true)
    × (length s.rest < length tokens)

checked-tree :
    (root' root : Module) (s : Parser)
    → checked (ok root' s) ≡ tree root
    → (root' ≡ root) × (s.errors ≡ 0)
unfolding checked
checked-tree root' root s e = elim (Bool-cases (s.errors == 0)) [
  | inl z ↦ let e' : tree root' ≡ tree root = rw z at e in (cc e', ground arith)
  | inr z ↦ let e' : ill_formed ≡ tree root = rw z at e in absurd (cc e')
]

-- If one of the tokens ends the text, the parser returns a tree only if `RecursiveDescent` returned it with no
-- error counted, and was then at a token of the end of the text, with fewer tokens to come than at the
-- start.
pub parse-tree :
    (alias : CString) (tokens : List Token)
    → HasEof tokens
    → (root : Module) → parse alias tokens ≡ tree root
    → (s : Parser) × Complete alias tokens root s
unfolding parse checked parser_init
parse-tree alias tokens ends root e =
    known _ refl (init-Runs alias tokens ends) (init-Stops alias tokens) e
  where
    known :
        (r : Result Module)
        → recursive_descent (suc (length tokens)) alias (parser_init tokens) ≡ r
        → After true true (parser_init tokens) r
        → At (same_type eof) r
        → checked r ≡ tree root
        → (s : Parser) × Complete alias tokens root s
    known (ok root' s) done h at e =
        let (same, clean) = checked-tree root' root s e in
        (s, (done ∙ ap (λ m. ok m s) same, clean, at, Onward-lt (parser_init tokens) s h))
    known (thrown s) done h at e = absurd (cc)
    known aborted done h at e = absurd (cc)
    known past_eof done h at e = absurd (cc)
    known out_of_fuel done h at e = absurd (cc)

-- `RecStmt`, with more units of fuel than tokens to come: where it returns, it took a token at least; where
-- it throws, an error was counted; and it comes to one of these or to an assertion, at a state that has
-- the end of the text ahead again.
pub rec_stmt-After :
    (n : ℕ) (s : Parser) → Ready s → length s.rest < n → After true false s ((knot n).rec_stmt s)
rec_stmt-After n s r lt = (knot-Works n).stmt_runs.run s r lt refl

-- The same of `RecDecl`; and at a token that starts a declaration, where `Synchronize` leaves the parser, it
-- took a token also where it throws, so that the loop that calls it again does not stand still.
pub rec_decl-After :
    (n : ℕ) (s : Parser)
    → Ready s
    → length s.rest < n
    → After true false s ((knot n).rec_decl s)
      × (starts_decl s.tok.type ≡ true → After true true s ((knot n).rec_decl s))
rec_decl-After n s r lt =
    ((knot-Works n).decl_runs.run s r lt refl, λ at. (knot-Works n).decl_moves.run s r lt at)
