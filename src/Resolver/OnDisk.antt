-- ===== src/Resolver/OnDisk.antt =====
-- The search of src/resolver.c on the files of a disk: `SyntaxTreeInit` gives each module the name of its
-- file, and comes back.
use lemon.Base.{
  ℕ, suc, ◌+◌, ◌*◌, ◌/◌, ◌<◌, ◌≡◌, ◌⊎◌, refl, sym, ap, ◌∙◌, inl, inr, Option, none, some, List,
  length, size_max, Bool-cases, ◌==◌,
}
use lemon.Parser.{
  SyntaxTree, tree, ill_formed, past_channel, no_fuel, recursive_descent, import_loop, decl_loop,
  knot, checked, parse, parse_sent, parser_init, syntax_tree_init,
}
use lemon.Parser
use lemon.Parser.Actions
use lemon.Parser.Actions.{Parser, Result, ok, aborted, past_eof, bind, Action}
use lemon.Parser.Decides.{Decided, syntax_tree_init_total}
use lemon.Parser.Tree.{CString, Module}
use lemon.Resolver.{
  Outcome, returned, thrown, stopped, dangling, out_of_fuel, unreadable, circular,
  resolve_dependencies,
}
use lemon.Resolver.Dependencies.{Resolves, Resolved, resolve_dependencies-Resolved}
use lemon.Resolver.Imports.{Imports, Reaches}
use lemon.Resolver.Loads.{loaded, unread, halted, Disk, file_load, read_tree, parse_text, load_tree}
use lemon.Scanner
use lemon.Scanner.{finished, assert_failed, scan}
use mathlib.Core.List.{Memᴰ}

-- a tree has this name
abbrev Names : CString → Result Module → Type 0
Names alias (ok root s) = root.alias ≡ alias
Names alias _ = Unit {0}

bind-Names :
    (alias : CString) (A : Type 0) (r : Result A) (k : A → Action Module)
    → ((a : A) (s : Parser) → Names alias (k a s))
    → Names alias (bind r k)
bind-Names alias A (ok a s) k h = h a s
bind-Names alias A (Actions.thrown s) k h = tt
bind-Names alias A aborted k h = tt
bind-Names alias A past_eof k h = tt
bind-Names alias A Actions.out_of_fuel k h = tt

recursive_descent-Names :
    (fuel : ℕ) (alias : CString) (s : Parser) → Names alias (recursive_descent fuel alias s)
unfolding recursive_descent
recursive_descent-Names fuel alias s = bind-Names alias _ _ _ (λ _ s1.
    bind-Names alias _ (import_loop fuel s1) _ (λ imports s2.
      bind-Names alias _ (decl_loop fuel (knot fuel) s2) _ (λ declarations s3. refl)))

checked-Names :
    (alias : CString) (r : Result Module) (root : Module)
    → Names alias r
    → checked r ≡ tree root
    → root.alias ≡ alias
unfolding checked
checked-Names alias (ok root' s) root same e = elim (Bool-cases (s.errors == 0)) [
  | inl z ↦
      let e' : tree root' ≡ tree root = rw z at e in
      let u : root' ≡ root = cc in sym (ap Module.alias u) ∙ same
  | inr z ↦ let e' : ill_formed ≡ tree root = rw z at e in absurd (cc e')
]
checked-Names alias (Actions.thrown s) root h e = absurd (cc)
checked-Names alias aborted root h e = absurd (cc)
checked-Names alias past_eof root h e = absurd (cc)
checked-Names alias Actions.out_of_fuel root h e = absurd (cc)

parse_sent-alias :
    (alias : CString) (sent : Scanner.Outcome) (root : Module)
    → parse_sent alias sent ≡ tree root
    → root.alias ≡ alias
unfolding parse_sent parse
parse_sent-alias alias (finished s) root e =
    checked-Names alias _ root
      (recursive_descent-Names (suc (length s.sent)) alias (parser_init s.sent)) e
parse_sent-alias alias assert_failed root e = absurd (cc)
parse_sent-alias alias Scanner.out_of_fuel root e = absurd (cc)

syntax_tree_init-alias :
    (alias : CString) (src : List ℕ) (root : Module)
    → syntax_tree_init alias src ≡ tree root
    → root.alias ≡ alias
unfolding syntax_tree_init
syntax_tree_init-alias alias src root e = parse_sent-alias alias (scan src) root e

read_tree-loaded : (t : SyntaxTree) (root : Module) → read_tree t ≡ loaded root → t ≡ tree root
unfolding read_tree
read_tree-loaded (tree root') root e = cc
read_tree-loaded ill_formed root e = absurd (cc)
read_tree-loaded Parser.stopped root e = absurd (cc)
read_tree-loaded past_channel root e = absurd (cc)
read_tree-loaded no_fuel root e = absurd (cc)

parse_text-alias :
    (filename : CString) (text : Option (List ℕ)) (root : Module)
    → parse_text filename text ≡ loaded root
    → root.alias ≡ filename
unfolding parse_text
parse_text-alias filename none root e = absurd (cc)
parse_text-alias filename (some src) root e =
    syntax_tree_init-alias filename src root
      (read_tree-loaded (syntax_tree_init filename src) root e)

-- a module that `SyntaxTreeInit` returns has the name that it was called with
load_tree-alias :
    (disk : Disk) (filename : CString) (root : Module)
    → load_tree disk filename ≡ loaded root
    → root.alias ≡ filename
unfolding load_tree
load_tree-alias disk filename root e = parse_text-alias filename (file_load disk filename) root e

halted-stopped :
    (filename : CString) (text : Option (List ℕ))
    → parse_text filename text ≡ halted
    → (src : List ℕ) × (text ≡ some src) × (syntax_tree_init filename src ≡ Parser.stopped)
unfolding parse_text read_tree
halted-stopped filename none e = absurd (cc)
halted-stopped filename (some src) e =
    (src, refl, stops (syntax_tree_init filename src) (syntax_tree_init_total filename src) e)
  where
    stops : (t : SyntaxTree) → Decided t → read_tree t ≡ halted → t ≡ Parser.stopped
    stops t (inl (root, e')) h = let e'' : loaded root ≡ halted = rw e' at h in absurd (cc e'')
    stops t (inr (inl e')) h = let e'' : unread ≡ halted = rw e' at h in absurd (cc e'')
    stops t (inr (inr e')) h = e'

unread-refused :
    (filename : CString) (text : Option (List ℕ))
    → parse_text filename text ≡ unread
    → (text ≡ none)
      ⊎ ((src : List ℕ) × (text ≡ some src) × (syntax_tree_init filename src ≡ ill_formed))
unfolding parse_text read_tree
unread-refused filename none e = inl refl
unread-refused filename (some src) e = inr (src, refl, refused (syntax_tree_init filename src) e)
  where
    refused : (t : SyntaxTree) → read_tree t ≡ unread → t ≡ ill_formed
    refused (tree root) h = absurd (cc)
    refused ill_formed h = refl
    refused Parser.stopped h = absurd (cc)
    refused past_channel h = absurd (cc)
    refused no_fuel h = absurd (cc)

-- The file cannot be read, or its text has errors.
abbrev pub Refused : Disk → CString → Type 0
Refused disk g =
    (file_load disk g ≡ none)
    ⊎ ((src : List ℕ) × (file_load disk g ≡ some src) × (syntax_tree_init g src ≡ ill_formed))

-- what a call of `ResolveDependencies` for a file of a disk comes to
abbrev pub Settled : Disk → CString → Outcome → Type 0
Settled disk root (returned b net) = (ms : List Module) × Resolves (load_tree disk) root net ms
Settled disk root (thrown (unreadable g)) = Reaches (load_tree disk) root g × Refused disk g
Settled disk root (thrown (circular p c)) =
    Reaches (load_tree disk) root p × Imports (load_tree disk) p c × Reaches (load_tree disk) c p
Settled disk root stopped =
    (g : CString) × (src : List ℕ) × Reaches (load_tree disk) root g
    × (file_load disk g ≡ some src)
    × (syntax_tree_init g src ≡ Parser.stopped)
Settled disk root dangling = ⊥
Settled disk root out_of_fuel = ⊥

settle :
    (disk : Disk) (root : CString) (r : Outcome)
    → Resolved (load_tree disk) root r
    → Settled disk root r
unfolding load_tree
settle disk root (returned b net) h = h
settle disk root (thrown (unreadable g)) (r, e) = (r, unread-refused g (file_load disk g) e)
settle disk root (thrown (circular p c)) h = h
settle disk root stopped (g, r, e) =
    let (src, at, ends) = halted-stopped g (file_load disk g) e in (g, src, r, at, ends)
settle disk root dangling h = h
settle disk root out_of_fuel h = h

-- For a list of names with every file that the root reaches and that parses, of which there may be some
-- 2 ^ 61, `ResolveDependencies` comes back on one unit of fuel more than there are names, or a parse
-- stops the program. A network that it returns has a list from its head through exactly the files that
-- the root reaches: each stands once, as its file parses, and after all that it imports. A file that is
-- reported as unreadable is reached and cannot be loaded, or has errors; a module that is reported with a
-- circular dependency on another is reached, imports the other, and is reached from it; and where the
-- program stops, the parser stopped it on the text of a file that is reached.
pub resolve_dependencies-Settled :
    (disk : Disk) (root : CString) (names : List CString)
    → 16 + 4 * length names < size_max / 2
    → ((g : CString) (ast : Module)
        → Reaches (load_tree disk) root g
        → load_tree disk g ≡ loaded ast
        → Memᴰ g names)
    → Settled disk root (resolve_dependencies (suc (length names)) (load_tree disk) root)
resolve_dependencies-Settled disk root names room listed =
    settle disk root (resolve_dependencies (suc (length names)) (load_tree disk) root)
      (resolve_dependencies-Resolved (load_tree disk) (load_tree-alias disk) root names room listed)
