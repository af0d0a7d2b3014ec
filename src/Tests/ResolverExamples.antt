-- ===== src/Tests/ResolverExamples.antt =====
-- The search of src/resolver.c on the files of small disks, and its theorem there.
use lemon.Base.{
  take, ◌-◌, ℕ, suc, ◌+◌, ◌≡◌, refl, subst, false, List, [], ◌∷◌, Option, none, some, bytes_eq,
  if◌then◌else◌, codes, length, arith,
}
use lemon.Parser.Tree.{CString, Module, variable, lit, base}
use lemon.Resolver
use lemon.Resolver.{
  Outcome, Vertex, returned, thrown, circular, unreadable, stopped, resolve_dependencies,
}
use lemon.Resolver.Imports.{Reaches, here, step, aliases}
use lemon.Resolver.Loads
use lemon.Resolver.Loads.{loaded, Disk, load_tree}
use lemon.Resolver.OnDisk.{Settled, resolve_dependencies-Settled}
use lemon.Resolver.Init.{resolver_init}
use lemon.Resolver.Whole.{Finished, resolver_init-Finished}
use lemon.Str.{Snprintf}
use lemon.Token.{literal_int}
use mathlib.Core.List.{Memᴰ}

-- `a` imports `b` and `c`, and `b` imports `c`
abbrev three_files : Disk
three_files name =
    if bytes_eq name (codes "a.lem")
    then some (codes "import \"b\"\nimport \"c\"\n")
    else if bytes_eq name (codes "b.lem")
    then some (codes "import \"c\"\n")
    else if bytes_eq name (codes "c.lem")
    then some (codes "let x: int32 = 1;\n")
    else none

abbrev module_a : Module
module_a = record {
  imports = record { alias = codes "b"; line = 1 } ∷ record { alias = codes "c"; line = 2 } ∷ [];
  declarations = [];
  alias = codes "a";
}

abbrev module_b : Module
module_b = record {
  imports = record { alias = codes "c"; line = 1 } ∷ [];
  declarations = [];
  alias = codes "b";
}

abbrev module_c : Module
module_c = record {
  imports = [];
  declarations =
      variable (codes "x") (base (codes "int32") 1) (lit (codes "1") literal_int 1) false false 1
      ∷ [];
  alias = codes "c";
}

loads_a : load_tree three_files (codes "a") ≡ loaded module_a
unfolding Loads.running bytes_eq
loads_a = refl

loads_b : load_tree three_files (codes "b") ≡ loaded module_b
unfolding Loads.running bytes_eq
loads_b = refl

loads_c : load_tree three_files (codes "c") ≡ loaded module_c
unfolding Loads.running bytes_eq
loads_c = refl

abbrev three_names : List CString
three_names = codes "a" ∷ codes "b" ∷ codes "c" ∷ []

imported :
    (f g a : CString) (ast known : Module)
    → f ≡ a
    → load_tree three_files a ≡ loaded known
    → load_tree three_files f ≡ loaded ast
    → Memᴰ g (aliases ast.imports)
    → Memᴰ g (aliases known.imports)
imported f g a ast known same e e' m =
    let e'' : load_tree three_files a ≡ loaded ast =
      subst (λ u. load_tree three_files u ≡ loaded ast) same e' in
    let same_tree : ast ≡ known = cc in subst (λ u. Memᴰ g (aliases u.imports)) same_tree m

inside :
    (f g : CString) (ast : Module)
    → Memᴰ f three_names
    → load_tree three_files f ≡ loaded ast
    → Memᴰ g (aliases ast.imports)
    → Memᴰ g three_names
inside f g ast (Memᴰ.head e) e' m = Memᴰ.tail (imported f g (codes "a") ast module_a e loads_a e' m)
inside f g ast (Memᴰ.tail (Memᴰ.head e)) e' m =
    Memᴰ.tail (Memᴰ.tail (imported f g (codes "b") ast module_b e loads_b e' m))
inside f g ast (Memᴰ.tail (Memᴰ.tail (Memᴰ.head e))) e' m =
    elim (imported f g (codes "c") ast module_c e loads_c e' m) [ ]
inside f g ast (Memᴰ.tail (Memᴰ.tail (Memᴰ.tail m'))) e' m = elim m' [ ]

reached : (g : CString) → Reaches (load_tree three_files) (codes "a") g → Memᴰ g three_names
reached g here = Memᴰ.head refl
reached g (step {g = f} r (ast, e, m)) = inside f g ast (reached f r) e m

resolve_dependencies-Settled_example :
    Settled three_files
      (codes "a")
      (resolve_dependencies (suc (length three_names)) (load_tree three_files) (codes "a"))
resolve_dependencies-Settled_example =
    resolve_dependencies-Settled three_files (codes "a") three_names (omega arith)
      (λ g ast r e. reached g r)

-- numbers of one digit
abbrev one_digit : Snprintf
one_digit = record { value = λ n. 1; written = λ size n. take (size - 1) ((b'0' + n) ∷ []) }

resolver_init-Finished_example :
    Finished three_files
      (codes "a")
      (resolver_init one_digit (suc (length three_names)) (load_tree three_files) (codes "a"))
resolver_init-Finished_example =
    resolver_init-Finished one_digit three_files (codes "a") three_names (omega arith)
      (λ g ast r e. reached g r)

-- what a run leaves in its modules, with the pointers to the first and the last of the list
abbrev shape : Outcome → Option (List (Option ℕ) × Option ℕ × Option ℕ)
shape (returned flag net) = some (nexts net.modules, net.head, net.prev)
  where
    nexts : List Vertex → List (Option ℕ)
    nexts [] = []
    nexts (v ∷ vs) = v.next ∷ nexts vs
shape _ = none

-- the list runs from `c` over `b` to `a`
three_run :
    shape (resolve_dependencies 4 (load_tree three_files) (codes "a"))
    ≡ some (none ∷ some 0 ∷ some 1 ∷ [], some 2, some 0)
unfolding Resolver.running
three_run = refl

abbrev circle : Disk
circle name =
    if bytes_eq name (codes "a.lem")
    then some (codes "import \"b\"\n")
    else if bytes_eq name (codes "b.lem")
    then some (codes "import \"a\"\n")
    else none

circle_run :
    resolve_dependencies 3 (load_tree circle) (codes "a")
    ≡ thrown (circular (codes "b") (codes "a"))
unfolding Resolver.running
circle_run = refl

missing_run :
    resolve_dependencies 3 (load_tree circle) (codes "c") ≡ thrown (unreadable (codes "c"))
unfolding Resolver.running
missing_run = refl
