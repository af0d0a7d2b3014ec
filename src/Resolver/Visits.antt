-- ===== src/Resolver/Visits.antt =====
-- `InsertModule` and `InsertChildren` of src/resolver.c, which call each other: what a call comes to, by
-- induction on the fuel.
use lemon.Base.{
  ℕ, zero, suc, ◌+◌, ◌*◌, ◌/◌, ◌<◌, ◌≡◌, refl, sym, ◌∙◌, inl, inr, subst, Bool, true, false, Option,
  none, some, Option-cases, List, [], ◌∷◌, length, size_max, arith,
}
use lemon.Graph.{graph_insert, graph_search}
use lemon.Map.{map_get}
use lemon.Parser.Tree.{CString, Import, Module}
use lemon.Resolver.{
  Network, Outcome, returned, thrown, stopped, dangling, out_of_fuel, open_vertex, close_vertex,
  insert_children, after_child, visit_children, insert_loaded, insert_found, read_flag,
  insert_module,
}
use lemon.Resolver.Closes.{closed-Searching}
use lemon.Resolver.Sorts.{closed_get}
use lemon.Resolver.Imports.{Imports, Reaches, step, here, aliases}
use lemon.Resolver.Loads.{Loaded, loaded, unread, halted}
use lemon.Resolver.Opens.{Opened, open_vertex-Opened}
use lemon.Resolver.Places.{unseen_mono}
use lemon.Resolver.Search.{Marked, unseen, Keeps, Searching, Visited, Expanded}
use mathlib.Core.List.{Memᴰ}
use mathlib.Core.List.Memᴰ

module _ (load : CString → Loaded)
    (named : (f : CString) (ast : Module) → load f ≡ loaded ast → ast.alias ≡ f) (root : CString)
    (names : List CString) (room : 16 + 4 * length names < size_max / 2)
    (listed : (g : CString) (ast : Module)
      → Reaches load root g
      → load g ≡ loaded ast
      → Memᴰ g names) where
  -- What a caller of `InsertModule` needs of it, on so much fuel and with so many calls on the stack.
  abbrev pub Visits : (Network → CString → Outcome) → ℕ → List CString → Type 0
  Visits insert fuel stack =
      (net : Network) (finished : List CString) (g : CString)
      → Searching load root names net finished stack
      → Reaches load root g
      → ((s : CString) → Memᴰ s stack → Reaches load s g)
      → unseen net names < fuel
      → Visited load root names g stack net finished (insert net g)

  -- the children that are left, after one that is done
  one_more :
      (g : CString) (ws stack : List CString) (net net1 : Network)
      (finished finished1 : List CString) (r : Outcome)
      → ((q : CString) → Memᴰ q finished → Memᴰ q finished1)
      → Keeps net net1
      → ((q : CString) → Memᴰ q (g ∷ []) → Memᴰ q finished1)
      → Expanded load root names ws stack net1 finished1 r
      → Expanded load root names (g ∷ ws) stack net finished r
  one_more g ws stack net net1 finished finished1 (returned b net2) more keeps own
        (finished2, search, more', keeps', got) =
      (finished2, search, λ q m. more' q (more q m), λ q i e. keeps' q i (keeps q i e), all)
    where
      all : (q : CString) → Memᴰ q (g ∷ ws) → Memᴰ q finished2
      all q (Memᴰ.head e) = more' q (own q (Memᴰ.head e))
      all q (Memᴰ.tail m) = got q m
  one_more g ws stack net net1 finished finished1 (thrown problem) more keeps own h = h
  one_more g ws stack net net1 finished finished1 stopped more keeps own h = h
  one_more g ws stack net net1 finished finished1 dangling more keeps own h = h
  one_more g ws stack net net1 finished finished1 out_of_fuel more keeps own h = h

  -- one child, and those behind it
  after_child-Expanded :
      (f g : CString) (ws stack : List CString) (net : Network) (finished : List CString)
      (rest : Network → Outcome) (r : Outcome)
      → Reaches load root f
      → Imports load f g
      → ((s : CString) → Memᴰ s stack → Reaches load s f)
      → Visited load root names g stack net finished r
      → ((net1 : Network) (finished1 : List CString)
          → Searching load root names net1 finished1 stack
          → Keeps net net1
          → Expanded load root names ws stack net1 finished1 (rest net1))
      → Expanded load root names (g ∷ ws) stack net finished (after_child f g rest r)
  unfolding after_child
  after_child-Expanded f g ws stack net finished rest (returned true net1) from_root edge path
        (finished1, search, more, keeps, own) go =
      one_more g ws stack net net1 finished finished1 (rest net1) more keeps own
        (go net1 finished1 search keeps)
  after_child-Expanded f g ws stack net finished rest (returned false net1) from_root edge path m
        go =
      (from_root, edge, path g m)
  after_child-Expanded f g ws stack net finished rest (thrown problem) from_root edge path h go = h
  after_child-Expanded f g ws stack net finished rest stopped from_root edge path h go = h
  after_child-Expanded f g ws stack net finished rest dangling from_root edge path h go = h
  after_child-Expanded f g ws stack net finished rest out_of_fuel from_root edge path h go = h

  insert_children-Expanded :
      (insert : Network → CString → Outcome) (fuel : ℕ) (f : CString) (stack : List CString)
      → Visits insert fuel stack
      → Reaches load root f
      → ((s : CString) → Memᴰ s stack → Reaches load s f)
      → (imports : List Import) → ((g : CString) → Memᴰ g (aliases imports) → Imports load f g)
      → (net : Network) (finished : List CString) → Searching load root names net finished stack
      → unseen net names < fuel
      → Expanded load root names
          (aliases imports)
          stack
          net
          finished
          (insert_children insert net imports f)
  unfolding insert_children
  insert_children-Expanded insert fuel f stack visits from_root path [] edges net finished search
        enough =
      (finished, search, λ q m. m, λ q i e. e, λ q m. elim m [ ])
  insert_children-Expanded insert fuel f stack visits from_root path (i ∷ imports) edges net
        finished search enough =
      let edge = edges i.alias (Memᴰ.head refl) in
      after_child-Expanded f i.alias (aliases imports) stack net finished
        (λ net1. insert_children insert net1 imports f) (insert net i.alias) from_root edge path
        (visits net finished i.alias search (step from_root edge) (λ s m. step (path s m) edge)
          enough)
        (λ net1 finished1 search1 keeps.
          insert_children-Expanded insert fuel f stack visits from_root path imports
            (λ g m. edges g (Memᴰ.tail m)) net1 finished1 search1
            (omega (arith, unseen_mono net net1 names keeps, enough)))

  -- the end of a call whose children are done
  close_vertex-Visited :
      (f : CString) (ast : Module) (stack : List CString) (net net1 : Network)
      (finished : List CString) (i : ℕ) (r : Outcome)
      → load f ≡ loaded ast
      → (Memᴰ f stack → ⊥)
      → Reaches load root f
      → Keeps net net1
      → map_get net1.dependencies f ≡ some i
      → Expanded load root names (aliases ast.imports) (f ∷ stack) net1 finished r
      → Visited load root names f stack net finished (close_vertex i r)
  unfolding close_vertex
  close_vertex-Visited f ast stack net net1 finished i (returned b net2) source new from_root keeps
        at (finished2, search, more, keeps', got) =
      (
        f ∷ finished2,
        closed-Searching load named root names net2 finished2 stack f ast search source new i
            (keeps' f i at) got from_root,
        λ q m. Memᴰ.tail (more q m),
        λ q j e. closed_get net2 i q ∙ keeps' q j (keeps q j e),
        λ q m. Memᴰ.head (Memᴰ.eq_of_singleton m),
      )
  close_vertex-Visited f ast stack net net1 finished i (thrown problem) source new from_root keeps
        at h =
      h
  close_vertex-Visited f ast stack net net1 finished i stopped source new from_root keeps at h = h
  close_vertex-Visited f ast stack net net1 finished i dangling source new from_root keeps at h = h
  close_vertex-Visited f ast stack net net1 finished i out_of_fuel source new from_root keeps at h =
      h

  module _ (insert : Network → CString → Outcome) (fuel : ℕ)
      (visits : (stack : List CString) → Visits insert fuel stack) (stack : List CString)
      (net : Network) (finished : List CString) (f : CString)
      (search : Searching load root names net finished stack) (from_root : Reaches load root f)
      (path : (s : CString) → Memᴰ s stack → Reaches load s f)
      (enough : unseen net names < suc fuel) where
    path_or_here : (s : CString) → Memᴰ s (f ∷ stack) → Reaches load s f
    path_or_here s (Memᴰ.head e) = subst (λ u. Reaches load u f) (sym e) here
    path_or_here s (Memᴰ.tail m) = path s m

    visit_children-Visited :
        (ast : Module) (o : Option Network)
        → load f ≡ loaded ast
        → map_get net.dependencies f ≡ none
        → Opened load root names room net finished stack f o
        → Visited load root names f stack net finished
            (visit_children insert (length net.modules) ast f o)
    unfolding visit_children
    visit_children-Visited ast none source fresh bad = absurd bad
    visit_children-Visited ast (some net1) source fresh (search1, keeps, fewer, at) =
        close_vertex-Visited f ast stack net net1 finished (length net.modules)
          (insert_children insert net1 ast.imports f) source
          (λ m. let (i, e) = search.entered f (inr m) in cc) from_root keeps at
          (insert_children-Expanded insert fuel f (f ∷ stack) (visits (f ∷ stack)) from_root
            path_or_here ast.imports (λ g m. (ast, source, m)) net1 finished search1
            (omega (arith, fewer, enough)))

    insert_loaded-Visited :
        (l : Loaded)
        → load f ≡ l
        → map_get net.dependencies f ≡ none
        → Visited load root names f stack net finished (insert_loaded insert net f l)
    unfolding insert_loaded
    insert_loaded-Visited unread e fresh = (from_root, e)
    insert_loaded-Visited halted e fresh = (f, from_root, e)
    insert_loaded-Visited (loaded ast) e fresh =
        visit_children-Visited ast
          (open_vertex net ast (graph_insert net.dependencies f (length net.modules))) e fresh
          (open_vertex-Opened load root names room net finished stack f ast search e
            (listed f ast from_root e) fresh)

    known-Visited :
        (b : Bool)
        → Marked finished stack f b
        → Visited load root names f stack net finished (returned b net)
    known-Visited true m =
        (finished, search, λ q m'. m', λ q i e. e, λ q m'. Memᴰ.cast (Memᴰ.eq_of_singleton m') m)
    known-Visited false m = m

    insert_found-Visited :
        Visited load root names f stack net finished
          (insert_found insert load net f (graph_search net.dependencies f))
    unfolding graph_search insert_found read_flag
    insert_found-Visited = elim (Option-cases (map_get net.dependencies f)) [
      | inl e ↦ rw e (insert_loaded-Visited (load f) refl e)
      | inr (i, e) ↦
          let (v, at, m) = search.known f i e in rw (e, at.shown) (known-Visited v.flag m)
    ]

  -- On more fuel than there are names that are not in the graph, a call of `InsertModule` comes to what
  -- `Visited` says.
  pub insert_module-Visits :
      (fuel : ℕ) (stack : List CString) → Visits (insert_module fuel load) fuel stack
  unfolding insert_module
  insert_module-Visits zero stack net finished f search from_root path enough = absurd (omega arith)
  insert_module-Visits (suc fuel) stack net finished f search from_root path enough =
      insert_found-Visited (insert_module fuel load) fuel (insert_module-Visits fuel) stack net
        finished f search from_root path enough
