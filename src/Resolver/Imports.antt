-- ===== src/Resolver/Imports.antt =====
-- The imports of src/resolver.c as a relation on file names, and the order in which a list of modules stands,
-- told without its search.
use lemon.Base.{ℕ, ◌≡◌, Option, none, some, List, [], ◌∷◌, get_elem?}
use lemon.Parser.Tree.{CString, Import, Module}
use lemon.Resolver.{Vertex}
use lemon.Resolver.Loads.{Loaded, loaded}
use mathlib.Core.List.{map, Memᴰ}

-- the names that a module imports
abbrev pub aliases : List Import → List CString
aliases [] = []
aliases (i ∷ imports) = i.alias ∷ aliases imports

-- The file `f` loads as a module that imports `g`.
abbrev pub Imports : (CString → Loaded) → CString → CString → Type 0
Imports load f g = (ast : Module) × (load f ≡ loaded ast) × Memᴰ g (aliases ast.imports)

-- The file `g` is `f`, or is imported by it, directly or not.
pub data Reaches (load : CString → Loaded) (f : CString) : CString → Type 0 where
  here : Reaches load f f
  step : {g h : CString} → Reaches load f g → Imports load g h → Reaches load f h

-- the files of a list of modules
abbrev pub files : List Module → List CString
files ms = map Module.alias ms

-- Behind the files `earlier`, the modules of the list stand each once, and after all that it imports.
abbrev pub Sorted : List CString → List Module → Type 0
Sorted earlier [] = Unit {0}
Sorted earlier (m ∷ ms) =
    ((g : CString) → Memᴰ g (aliases m.imports) → Memᴰ g earlier)
    × (Memᴰ m.alias earlier → ⊥)
    × Sorted (m.alias ∷ earlier) ms

-- The list that a pointer leads to by the `next` members, up to NULL.
pub data ListAt (modules : List Vertex) : Option ℕ → List Module → Type 0 where
  done : ListAt modules none []
  node :
      (i : ℕ) (v : Vertex) {ms : List Module}
      → get_elem? modules i ≡ some v
      → ListAt modules v.next ms
      → ListAt modules (some i) (v.ast ∷ ms)
