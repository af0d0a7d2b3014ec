-- ===== src/Resolver.antt =====
-- Phase 1 of src/resolver.c: the modules that a root imports, directly or not, are loaded into a graph and
-- threaded onto a list in topological order, by one depth-first search.
--
-- The modules are in a store, and a pointer to one is its index there. What a load of a file comes to is an
-- argument; `Loads` says what it is for files with the parser behind them.
pub mod Loads
pub mod Imports
pub mod Search
pub mod Places
pub mod Opens
pub mod Sorts
pub mod Closes
pub mod Visits
pub mod Dependencies
pub mod OnDisk
pub mod Types
pub mod Notation
pub mod TypeTexts
pub mod Signatures
pub mod Frames
pub mod Lookups
pub mod Symbols
pub mod Homes
pub mod Finds
pub mod Steady
pub mod Primitives
pub mod Balance
pub mod Init
pub mod Begins
pub mod Lengths
pub mod Whole
use lemon.Base.{
  ℕ, zero, suc, Bool, true, false, Option, none, some, List, [], ◌∷◌, ◌++◌, get_elem?, length,
}
use lemon.Graph.{graph_init, graph_insert, graph_search}
use lemon.Map.{Map, Insertion, failed, duplicate, inserted}
use lemon.Map
use lemon.Parser.Tree.{CString, Import, Module}
use lemon.Resolver.Loads
use lemon.Resolver.Loads.{Loaded, loaded, unread, halted}

-- a `module` on the heap: what the parser leaves, the mark of the search, and the list's pointer
pub record Vertex : Type 0 where
  pub ast : Module
  pub flag : Bool
  pub next : Option ℕ

-- `struct network` with the modules that it points to and the static variable of `Sort`; `global`, which
-- phase 2 sets, is left out
pub record Network : Type 0 where
  pub modules : List Vertex
  pub dependencies : Map ℕ
  pub head : Option ℕ
  pub prev : Option ℕ

-- what is reported before `Throw(XXGRAPH)`
pub data Problem : Type 0 where
  unreadable : CString → Problem
  circular : CString → CString → Problem

-- how `InsertModule` ends: it returns a flag, throws, or the program stops; `dangling` is a read through a
-- pointer to no module
pub data Outcome : Type 0 where
  returned : Bool → Network → Outcome
  thrown : Problem → Outcome
  stopped dangling out_of_fuel : Outcome

-- `ON_CALL_STACK` and `OFF_CALL_STACK`
abbrev pub on_call_stack : Bool
on_call_stack = false

abbrev pub off_call_stack : Bool
off_call_stack = true

-- a write to the module that a pointer shows
unfoldable pub modify : (Vertex → Vertex) → List Vertex → ℕ → List Vertex
modify f [] i = []
modify f (v ∷ vs) zero = f v ∷ vs
modify f (v ∷ vs) (suc i) = v ∷ modify f vs i

abbrev pub with_flag : Bool → Vertex → Vertex
with_flag b v = record v { flag = b }

abbrev pub with_next : Option ℕ → Vertex → Vertex
with_next next v = record v { next = next }

unfoldable pub write_flag : Network → ℕ → Bool → Network
write_flag net i b = record net { modules = modify (with_flag b) net.modules i }

unfoldable pub link : Network → Option ℕ → ℕ → Network
link net none curr = record net { head = some curr }
link net (some p) curr = record net { modules = modify (with_next (some curr)) net.modules p }

-- `Sort`
unfoldable pub sort : Network → ℕ → Network
sort net curr =
    let linked = link net net.prev curr in
    record linked { modules = modify (with_next none) linked.modules curr; prev = some curr }

-- what `InsertChildren` does with the status of one child
unfoldable pub after_child : CString → CString → (Network → Outcome) → Outcome → Outcome
after_child parentname childname rest (returned true net) = rest net
after_child parentname childname rest (returned false net) = thrown (circular parentname childname)
after_child parentname childname rest (thrown problem) = thrown problem
after_child parentname childname rest stopped = stopped
after_child parentname childname rest dangling = dangling
after_child parentname childname rest out_of_fuel = out_of_fuel

-- `InsertChildren`, over the call of `InsertModule`; it returns nothing, here `off_call_stack`
unfoldable pub insert_children :
    (Network → CString → Outcome) → Network → List Import → CString → Outcome
insert_children insert net [] parentname = returned off_call_stack net
insert_children insert net (import ∷ imports) parentname =
    after_child parentname import.alias (λ net'. insert_children insert net' imports parentname)
      (insert net import.alias)

-- the end of `InsertModule`, once the children are there
unfoldable pub close_vertex : ℕ → Outcome → Outcome
close_vertex i (returned _ net) = returned off_call_stack (write_flag (sort net i) i off_call_stack)
close_vertex i (thrown problem) = thrown problem
close_vertex i stopped = stopped
close_vertex i dangling = dangling
close_vertex i out_of_fuel = out_of_fuel

-- the graph with the new vertex, whose flag is `ON_CALL_STACK`; the result of `GraphInsert` is not read
unfoldable pub open_vertex : Network → Module → Insertion ℕ → Option Network
open_vertex net ast failed = none
open_vertex net ast (duplicate graph) = some (record net {
  modules = net.modules ++ record { ast = ast; flag = on_call_stack; next = none } ∷ [];
  dependencies = graph;
})
open_vertex net ast (inserted slot graph) = some (record net {
  modules = net.modules ++ record { ast = ast; flag = on_call_stack; next = none } ∷ [];
  dependencies = graph;
})

unfoldable pub visit_children :
    (Network → CString → Outcome) → ℕ → Module → CString → Option Network → Outcome
visit_children insert i ast filename none = stopped
visit_children insert i ast filename (some net) =
    close_vertex i (insert_children insert net ast.imports filename)

-- a file that is not in the graph, by what its load comes to
unfoldable pub insert_loaded : (Network → CString → Outcome) → Network → CString → Loaded → Outcome
insert_loaded insert net filename unread = thrown (unreadable filename)
insert_loaded insert net filename halted = stopped
insert_loaded insert net filename (loaded ast) =
    visit_children insert (length net.modules) ast filename
      (open_vertex net ast (graph_insert net.dependencies filename (length net.modules)))

-- a file that is in the graph
unfoldable pub read_flag : Network → Option Vertex → Outcome
read_flag net none = dangling
read_flag net (some vertex) = returned vertex.flag net

unfoldable pub insert_found :
    (Network → CString → Outcome) → (CString → Loaded) → Network → CString → Option ℕ → Outcome
insert_found insert load net filename (some i) = read_flag net (get_elem? net.modules i)
insert_found insert load net filename none = insert_loaded insert net filename (load filename)

-- `InsertModule`, on fuel for its recursion through `InsertChildren`
unfoldable pub insert_module : ℕ → (CString → Loaded) → Network → CString → Outcome
insert_module zero load net filename = out_of_fuel
insert_module (suc fuel) load net filename =
    insert_found (insert_module fuel load) load net filename
      (graph_search net.dependencies filename)

-- the network of `ResolverInit` before its first call of `ResolveDependencies`
unfoldable pub empty_network : Network
empty_network = record { modules = []; dependencies = graph_init; head = none; prev = none }

-- `ResolveDependencies`; a returned flag that is not set is its failed assertion, and a problem its false
unfoldable pub asserted : Outcome → Outcome
asserted (returned false net) = stopped
asserted (returned true net) = returned true net
asserted (thrown problem) = thrown problem
asserted stopped = stopped
asserted dangling = dangling
asserted out_of_fuel = out_of_fuel

unfoldable pub resolve_dependencies : ℕ → (CString → Loaded) → CString → Outcome
resolve_dependencies fuel load filename = asserted (insert_module fuel load empty_network filename)

-- all that a run computes with
unfoldable pub running : Unit {0}
unfolding modify write_flag link sort after_child insert_children close_vertex open_vertex
    visit_children insert_loaded read_flag insert_found insert_module empty_network asserted
    resolve_dependencies graph_init graph_insert graph_search Map.running Loads.running
running = tt
