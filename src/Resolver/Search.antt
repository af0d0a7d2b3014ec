-- ===== src/Resolver/Search.antt =====
-- The invariant of the depth-first search of src/resolver.c: which files stand in the graph, how they are
-- marked, and how the list runs through those that are done.
use lemon.Base.{
  ℕ, ◌+◌, ◌*◌, ◌≤◌, ◌≡◌, ◌⊎◌, Bool, true, false, Option, none, some, List, [], ◌∷◌, get_elem?,
  length,
}
use lemon.Map.{map_get}
use lemon.Map.Valid.{IsValid}
use lemon.Parser.Tree.{CString}
use lemon.Resolver.{
  Vertex, Network, Problem, unreadable, circular, Outcome, returned, thrown, stopped, dangling,
  out_of_fuel,
}
use lemon.Resolver.Imports.{Imports, Reaches}
use lemon.Resolver.Loads.{Loaded, loaded, unread, halted}
use mathlib.Core.List.{Memᴰ}

-- The file stands in the graph at a pointer that shows a module.
pub record At (load : CString → Loaded) (net : Network) (f : CString) (i : ℕ) (v : Vertex)
    : Type 0 where
  pub mapped : map_get net.dependencies f ≡ some i
  pub shown : get_elem? net.modules i ≡ some v
  pub source : load f ≡ loaded v.ast

-- how many of the names are not in the graph
abbrev pub missing : Option ℕ → ℕ
missing none = 1
missing (some i) = 0

abbrev pub unseen : Network → List CString → ℕ
unseen net [] = 0
unseen net (f ∷ names) = missing (map_get net.dependencies f) + unseen net names

-- Later networks keep the files of earlier ones at their pointers.
abbrev pub Keeps : Network → Network → Type 0
Keeps net net' =
    (f : CString) (i : ℕ)
    → map_get net.dependencies f ≡ some i
    → map_get net'.dependencies f ≡ some i

-- a file is done, or its call of `InsertModule` has not returned
abbrev pub Marked : List CString → List CString → CString → Bool → Type 0
Marked finished stack f true = Memᴰ f finished
Marked finished stack f false = Memᴰ f stack

-- The files, the latest first, stand each once and behind all that it imports.
abbrev pub Ordered : (CString → Loaded) → List CString → Type 0
Ordered load [] = Unit {0}
Ordered load (f ∷ fs) =
    ((g : CString) → Imports load f g → Memᴰ g fs) × (Memᴰ f fs → ⊥) × Ordered load fs

-- The list runs from its head through the files, here the latest first, and on to `next`.
abbrev pub Threaded : (CString → Loaded) → Network → Option ℕ → List CString → Type 0
Threaded load net next [] = net.head ≡ next
Threaded load net next (f ∷ fs) =
    (i : ℕ) × (v : Vertex) × At load net f i v × (v.next ≡ next) × Threaded load net (some i) fs

-- where the last module of the list is
abbrev pub Latest : Network → List CString → Type 0
Latest net [] = net.prev ≡ none
Latest net (f ∷ fs) = (i : ℕ) × (net.prev ≡ some i) × (map_get net.dependencies f ≡ some i)

module _ (load : CString → Loaded) (root : CString) where
  -- A problem that is reported is one.
  abbrev pub Justified : Problem → Type 0
  Justified (unreadable g) = Reaches load root g × (load g ≡ unread)
  Justified (circular p c) = Reaches load root p × Imports load p c × Reaches load c p

  -- A file stops the program when it is loaded.
  abbrev pub Halts : Type 0
  Halts = (g : CString) × Reaches load root g × (load g ≡ halted)

module _ (load : CString → Loaded) (root : CString) (names : List CString) where
  -- The invariant, for the files that are done and those on the call stack.
  pub record Searching (net : Network) (finished stack : List CString) : Type 0 where
    pub valid : IsValid net.dependencies
    pub known :
        (f : CString) (i : ℕ)
        → map_get net.dependencies f ≡ some i
        → (v : Vertex) × At load net f i v × Marked finished stack f v.flag
    pub entered :
        (f : CString)
        → Memᴰ f finished ⊎ Memᴰ f stack
        → (i : ℕ) × (map_get net.dependencies f ≡ some i)
    pub apart : (f : CString) → Memᴰ f finished → Memᴰ f stack → ⊥
    pub ordered : Ordered load finished
    pub threaded : Threaded load net none finished
    pub latest : Latest net finished
    pub reached : (f : CString) → Memᴰ f finished → Reaches load root f
    pub counted : length net.modules + unseen net names ≤ length names
    pub short : net.dependencies.len ≤ length net.modules
    pub narrow : net.dependencies.cap ≤ 16 + 4 * length net.modules

  -- a search goes on from a network with more files done, with the same calls on the stack
  abbrev pub Continues : List CString → List CString → Network → List CString → Network → Type 0
  Continues wanted stack net finished net' =
      (finished' : List CString) × Searching net' finished' stack
      × ((f : CString) → Memᴰ f finished → Memᴰ f finished')
      × Keeps net net'
      × ((f : CString) → Memᴰ f wanted → Memᴰ f finished')

  -- what a call of `InsertModule` for a file comes to
  abbrev pub Visited : CString → List CString → Network → List CString → Outcome → Type 0
  Visited f stack net finished (returned true net') = Continues (f ∷ []) stack net finished net'
  Visited f stack net finished (returned false net') = Memᴰ f stack
  Visited f stack net finished (thrown problem) = Justified load root problem
  Visited f stack net finished stopped = Halts load root
  Visited f stack net finished dangling = ⊥
  Visited f stack net finished out_of_fuel = ⊥

  -- what `InsertChildren` comes to
  abbrev pub Expanded : List CString → List CString → Network → List CString → Outcome → Type 0
  Expanded wanted stack net finished (returned b net') = Continues wanted stack net finished net'
  Expanded wanted stack net finished (thrown problem) = Justified load root problem
  Expanded wanted stack net finished stopped = Halts load root
  Expanded wanted stack net finished dangling = ⊥
  Expanded wanted stack net finished out_of_fuel = ⊥
