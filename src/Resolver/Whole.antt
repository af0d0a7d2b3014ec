-- ===== src/Resolver/Whole.antt =====
-- `ResolverInit` of src/resolver.c as a whole: it comes back, and what it leaves is in order.
use lemon.Base.{
  ℕ, suc, zero, ◌+◌, ◌*◌, ◌/◌, ◌<◌, ◌≡◌, refl, sym, ◌∙◌, subst, Option, none, some, List, [], ◌∷◌,
  get_elem?, length, size_max, arith,
}
use lemon.Parser.Tree.{CString, Module}
use lemon.Resolver.{
  Vertex, Network, Outcome, returned, thrown, stopped, dangling, out_of_fuel, unreadable, circular,
  resolve_dependencies,
}
use lemon.Resolver.Begins.{Begins, sym_table_init-Begins}
use lemon.Resolver.Balance.{resolve_module-Steady}
use lemon.Resolver.Dependencies.{Resolves}
use lemon.Resolver.Frames
use lemon.Resolver.Frames.{Frame, Result, Action, Done, bind, insert_symbol, after_insert}
use lemon.Resolver.Imports.{Reaches, ListAt, files}
use lemon.Resolver.Init.{
  Resolution, resolved, refused, halted, unfinished, symbols_resolved, resolve_symbols, with_global,
  second_phase, resolver_init,
}
use lemon.Resolver.Loads.{loaded, Disk, load_tree}
use lemon.Resolver.OnDisk.{Settled, resolve_dependencies-Settled}
use lemon.Resolver.Steady.{Sound, InRange, Kept, Leaves}
use lemon.Resolver.Symbols.{from_global, resolve_node, resolve_from}
use lemon.Str.{Snprintf}
use lemon.SymTable.{Table, Store, sym_table_init}
use mathlib.Core.List.{Memᴰ}
use lemon.Resolver.Lengths.{Sorted-length}

-- what the walk along the list leaves
abbrev Walks : Frame → Result Done → Type 0
Walks s (Frames.ok _ s') = Sound s'.store × (s'.history ≡ s.history)
Walks s Frames.thrown = Unit {0}
Walks s Frames.stopped = Unit {0}
Walks s Frames.out_of_fuel = ⊥

module _ (snprintf : Snprintf) where
  abbrev at_global : ℕ → Frame → Frame
  at_global global s = record s { top = global }

  walk_on :
      (global : ℕ) (s s1 : Frame) (r : Result Done) (k : Action Done)
      → Leaves s1 r
      → s1.history ≡ s.history
      → ((s' : Frame) → Kept s1 s' → Walks s' (k s'))
      → Walks s (bind r (λ _. k))
  walk_on global s s1 (Frames.ok _ s') k l same go = further (k s') (go s' l)
    where
      further : (r : Result Done) → Walks s' r → Walks s r
      further (Frames.ok _ s'') (sound, e) = (sound, e ∙ l.history ∙ same)
      further Frames.thrown h = tt
      further Frames.stopped h = tt
      further Frames.out_of_fuel h = h
  walk_on global s s1 Frames.thrown k l same go = tt
  walk_on global s s1 Frames.stopped k l same go = tt
  walk_on global s s1 Frames.out_of_fuel k l same go = l

  -- The walk along the list ends, on more fuel than the list has modules.
  resolve_from-Walks :
      (modules : List Vertex) (global fuel : ℕ) (next : Option ℕ) (ms : List Module)
      → ListAt modules next ms
      → length ms < fuel
      → (s : Frame) → Sound s.store
      → InRange (at_global global s)
      → Walks s (resolve_from snprintf fuel modules global next s)
  unfolding resolve_from resolve_node from_global
  resolve_from-Walks modules global fuel _ _ ListAt.done enough s sound range = (sound, refl)
  resolve_from-Walks modules global zero _ _ (ListAt.node i v e list) enough s sound range =
      absurd (omega (arith, enough))
  resolve_from-Walks modules global (suc fuel) _ _ (ListAt.node i v {ms = ms} e list) enough s sound
        range =
      rw e (
        walk_on global s (at_global global s) _ (resolve_from snprintf fuel modules global v.next)
          ((resolve_module-Steady snprintf v.ast).run (at_global global s) sound range) refl
          (λ s' k.
            resolve_from-Walks modules global fuel v.next ms list (omega (arith, enough)) s' k.sound
              (still s s' k range)))
    where
      still :
          (s s' : Frame)
          → Kept (at_global global s) s'
          → InRange (at_global global s)
          → InRange (at_global global s')
      still s s' k (table, e) = let (table', e', tag, up) = k.tables global table e in (table', e')

-- what `ResolverInit` leaves for a file of a disk: the list of its modules, and the tree of the scopes
abbrev pub Finished : Disk → CString → Resolution → Type 0
Finished disk root (resolved net s) =
    ((ms : List Module) × Resolves (load_tree disk) root net ms) × Sound s.store × (s.history ≡ [])
Finished disk root refused = Unit {0}
Finished disk root halted = Unit {0}
Finished disk root unfinished = ⊥

module _ (snprintf : Snprintf) (disk : Disk) (root : CString) (names : List CString)
    (listed : (g : CString) (ast : Module)
      → Reaches (load_tree disk) root g
      → load_tree disk g ≡ loaded ast
      → Memᴰ g names) where
  module _ (net : Network) (ms : List Module) (h : Resolves (load_tree disk) root net ms) where
    enough : length ms < suc (length names)
    enough =
        let (list, sorted, covers, loads) = h in
        omega (arith, Sorted-length [] names ms sorted (λ q m. all q m ((covers q).0 m) loads))
      where
        found :
            (q : CString) (ms : List Module)
            → Memᴰ q (files ms)
            → ((m : Module) → Memᴰ m ms → load_tree disk m.alias ≡ loaded m)
            → (ast : Module) × (load_tree disk q ≡ loaded ast)
        found q [] m loads = elim m [ ]
        found q (a ∷ ms) (Memᴰ.head e) loads =
            (a, subst (λ u. load_tree disk u ≡ loaded a) (sym e) (loads a (Memᴰ.head refl)))
        found q (a ∷ ms) (Memᴰ.tail m) loads = found q ms m (λ b t. loads b (Memᴰ.tail t))

        all :
            (q : CString)
            → Memᴰ q (files ms)
            → Reaches (load_tree disk) root q
            → ((m : Module) → Memᴰ m ms → load_tree disk m.alias ≡ loaded m)
            → Memᴰ q names
        all q m r loads = let (ast, e) = found q ms m loads in listed q ast r e

    walked :
        (s : Frame) (r : Result Done)
        → s.history ≡ []
        → Walks s r
        → Finished disk root (symbols_resolved net r)
    unfolding symbols_resolved
    walked s (Frames.ok _ s') start (sound, same) = ((ms, h), sound, same ∙ start)
    walked s Frames.thrown start l = tt
    walked s Frames.stopped start l = tt
    walked s Frames.out_of_fuel start l = l

    symbols-Finished :
        (store : Store) (global : ℕ) (head : Option ℕ)
        → head ≡ net.head
        → Sound store
        → (table : Table) × (get_elem? store global ≡ some table)
        → Finished disk root (resolve_symbols snprintf (suc (length names)) net head store global)
    unfolding resolve_symbols
    symbols-Finished store global none e sound range = tt
    symbols-Finished store global (some i) e sound range =
        let (list, sorted, covers, loads) = h in
        walked (record { top = global; history = []; store = store }) _ refl
          (resolve_from-Walks snprintf net.modules global (suc (length names)) (some i) ms
            (subst (λ p. ListAt net.modules p ms) (sym e) list) enough
            (record { top = global; history = []; store = store }) sound range)

    with_global-Finished :
        (o : Option (Store × ℕ))
        → Begins o
        → Finished disk root (with_global snprintf (suc (length names)) net o)
    unfolding with_global
    with_global-Finished none begins = tt
    with_global-Finished (some (store, global)) (sound, range) =
        symbols-Finished store global net.head refl sound range

  second_phase-Finished :
      (r : Outcome)
      → Settled disk root r
      → Finished disk root (second_phase snprintf (suc (length names)) r)
  unfolding second_phase
  second_phase-Finished (returned b net) (ms, h) =
      with_global-Finished net ms h (sym_table_init [] net.dependencies.len)
        (sym_table_init-Begins net.dependencies.len)
  second_phase-Finished (thrown (unreadable g)) h = tt
  second_phase-Finished (thrown (circular p c)) h = tt
  second_phase-Finished stopped h = tt
  second_phase-Finished dangling h = absurd h
  second_phase-Finished out_of_fuel h = absurd h

-- For a list of names with every file that the root reaches and that parses, of which there may be some
-- 2 ^ 61, `ResolverInit` comes back, or the program stops, on one unit of fuel more than there are names.
-- Where it returns a network, the list of that network runs through exactly the files that the root
-- reaches, each once and after all that it imports; the tree of all the scopes, the global one and those
-- of the modules and their declarations, is well formed, each table behind its parent and within the
-- capacities of the code; and no stack of tables is left in the history.
pub resolver_init-Finished :
    (snprintf : Snprintf) (disk : Disk) (root : CString) (names : List CString)
    → 16 + 4 * length names < size_max / 2
    → ((g : CString) (ast : Module)
        → Reaches (load_tree disk) root g
        → load_tree disk g ≡ loaded ast
        → Memᴰ g names)
    → Finished disk root (resolver_init snprintf (suc (length names)) (load_tree disk) root)
unfolding resolver_init
resolver_init-Finished snprintf disk root names room listed =
    second_phase-Finished snprintf disk root names listed
      (resolve_dependencies (suc (length names)) (load_tree disk) root)
      (resolve_dependencies-Settled disk root names room listed)
