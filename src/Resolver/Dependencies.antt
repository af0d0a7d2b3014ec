-- ===== src/Resolver/Dependencies.antt =====
-- `ResolveDependencies` of src/resolver.c: what the modules of the network are in the end, and in which order
-- the list runs through them.
use lemon.Base.{
  ℕ, suc, ◌+◌, ◌*◌, ◌/◌, ◌≤◌, ◌<◌, ◌≡◌, ◌⊎◌, ◌↔◌, refl, sym, ap, ◌∙◌, inl, inr, subst, true, false,
  Option, none, some, List, [], ◌∷◌, length, size_max, arith,
}
use lemon.Graph.{graph_init}
use lemon.Map.{map_get, map_init}
use lemon.Map.Valid.{map_get-none, init-IsValid, init-empty}
use lemon.Parser.Tree.{CString, Module}
use lemon.Resolver.{
  Network, Outcome, returned, thrown, stopped, dangling, out_of_fuel, insert_module, empty_network,
  asserted, resolve_dependencies,
}
use lemon.Resolver.Imports.{Imports, Reaches, here, step, Sorted, ListAt, files}
use lemon.Resolver.Loads.{Loaded, loaded}
use lemon.Resolver.Places.{missing_le}
use lemon.Resolver.Search.{unseen, Ordered, Threaded, Searching, Justified, Halts, Visited}
use lemon.Resolver.Visits.{insert_module-Visits}
use mathlib.Core.List.{Memᴰ}

-- The list runs through every file that the root reaches and no other, each as it loads, once, and after
-- all that it imports.
abbrev pub Resolves : (CString → Loaded) → CString → Network → List Module → Type 0
Resolves load root net ms =
    ListAt net.modules net.head ms
    × Sorted [] ms
    × ((f : CString) → Memᴰ f (files ms) ↔ Reaches load root f)
    × ((m : Module) → Memᴰ m ms → load m.alias ≡ loaded m)

-- what a call of `ResolveDependencies` comes to
abbrev pub Resolved : (CString → Loaded) → CString → Outcome → Type 0
Resolved load root (returned b net) = (ms : List Module) × Resolves load root net ms
Resolved load root (thrown problem) = Justified load root problem
Resolved load root stopped = Halts load root
Resolved load root dangling = ⊥
Resolved load root out_of_fuel = ⊥

module _ (load : CString → Loaded)
    (named : (f : CString) (ast : Module) → load f ≡ loaded ast → ast.alias ≡ f) where
  -- the list from a pointer on, behind the files that it ran through before
  abbrev Behind : Network → Option ℕ → List CString → List Module → Type 0
  Behind net next fs ms =
      ListAt net.modules next ms
      × Sorted fs ms
      × ((m : Module) → Memᴰ m ms → load m.alias ≡ loaded m)

  collect :
      (net : Network) (next : Option ℕ) (fs : List CString) (ms : List Module)
      → Threaded load net next fs
      → Ordered load fs
      → Behind net next fs ms
      → (all : List Module) × Behind net net.head [] all
        × ((q : CString) → Memᴰ q (files all) ↔ (Memᴰ q fs ⊎ Memᴰ q (files ms)))
  collect net next [] ms start ordered (list, sorted, loads) = (
    ms,
    (subst (λ p. ListAt net.modules p ms) (sym start) list, sorted, loads),
    λ q. (λ m. inr m, λ m. from m),
  )
    where
      from : {q : CString} → Memᴰ q [] ⊎ Memᴰ q (files ms) → Memᴰ q (files ms)
      from (inl m) = elim m [ ]
      from (inr m) = m
  collect net next (f ∷ fs) ms (i, v, at, end, rest) (first, alone, ordered) (list, sorted, loads) =
      let same : v.ast.alias ≡ f = named f v.ast at.source in
      let (all, behind, covers) = collect net (some i) fs (v.ast ∷ ms) rest ordered (
        ListAt.node i v at.shown (subst (λ p. ListAt net.modules p ms) (sym end) list),
        (
          λ g m. first g (v.ast, at.source, m),
          λ m. alone (subst (λ u. Memᴰ u fs) same m),
          subst (λ u. Sorted (u ∷ fs) ms) (sym same) sorted,
        ),
        λ m there. loads' v.ast f same at.source m there,
      ) in
      (all, behind, λ q. (λ m. there same q ((covers q).0 m), λ m. (covers q).1 (back same q m)))
    where
      loads' :
          (ast : Module) (g : CString)
          → ast.alias ≡ g
          → load g ≡ loaded ast
          → (m : Module) → Memᴰ m (ast ∷ ms)
          → load m.alias ≡ loaded m
      loads' ast g same source m (Memᴰ.head e) =
          subst (λ u. load u.alias ≡ loaded u) (sym e) (ap load same ∙ source)
      loads' ast g same source m (Memᴰ.tail t) = loads m t

      there :
          {a : CString}
          → a ≡ f
          → (q : CString) → Memᴰ q fs ⊎ Memᴰ q (a ∷ files ms)
          → Memᴰ q (f ∷ fs) ⊎ Memᴰ q (files ms)
      there same q (inl m) = inl (Memᴰ.tail m)
      there same q (inr (Memᴰ.head e)) = inl (Memᴰ.head (e ∙ same))
      there same q (inr (Memᴰ.tail m)) = inr m

      back :
          {a : CString}
          → a ≡ f
          → (q : CString) → Memᴰ q (f ∷ fs) ⊎ Memᴰ q (files ms)
          → Memᴰ q fs ⊎ Memᴰ q (a ∷ files ms)
      back same q (inl (Memᴰ.head e)) = inr (Memᴰ.head (e ∙ sym same))
      back same q (inl (Memᴰ.tail m)) = inl m
      back same q (inr m) = inr (Memᴰ.tail m)

  -- the files that are done import no others
  Ordered-closed :
      (fs : List CString) (g h : CString)
      → Ordered load fs
      → Memᴰ g fs
      → Imports load g h
      → Memᴰ h fs
  Ordered-closed [] g h ordered m edge = elim m [ ]
  Ordered-closed (f ∷ fs) g h (first, alone, ordered) (Memᴰ.head e) edge =
      Memᴰ.tail (first h (subst (λ u. Imports load u h) e edge))
  Ordered-closed (f ∷ fs) g h (first, alone, ordered) (Memᴰ.tail m) edge =
      Memᴰ.tail (Ordered-closed fs g h ordered m edge)

  all_reached :
      (root : CString) (fs : List CString)
      → Ordered load fs
      → Memᴰ root fs
      → (f : CString) → Reaches load root f
      → Memᴰ f fs
  all_reached root fs ordered m f here = m
  all_reached root fs ordered m f (step {g} r edge) =
      Ordered-closed fs g f ordered (all_reached root fs ordered m g r) edge

  module _ (root : CString) (names : List CString) (room : 16 + 4 * length names < size_max / 2)
      (listed : (g : CString) (ast : Module)
        → Reaches load root g
        → load g ≡ loaded ast
        → Memᴰ g names) where
    nothing_mapped : (f : CString) → map_get (empty_network).dependencies f ≡ none
    unfolding empty_network graph_init
    nothing_mapped f =
        map_get-none (map_init 16) (init-IsValid ℕ 16 (omega arith)) f (init-empty ℕ 16 f)

    unseen-le : (net : Network) (fs : List CString) → unseen net fs ≤ length fs
    unseen-le net [] = omega arith
    unseen-le net (f ∷ fs) =
        omega (arith, unseen-le net fs, missing_le (map_get net.dependencies f))

    empty-Searching : Searching load root names empty_network [] []
    unfolding empty_network graph_init map_init
    empty-Searching = record {
      valid = init-IsValid ℕ 16 (omega arith);
      known = λ f i e. absurd (let e' = nothing_mapped f in cc);
      entered = λ f m. absurd (nowhere f m);
      apart = λ f m. elim m [ ];
      ordered = tt;
      threaded = refl;
      latest = refl;
      reached = λ f m. elim m [ ];
      counted = omega (arith, unseen-le empty_network names);
      short = omega arith;
      narrow = omega arith;
    }
      where
        nowhere : (f : CString) → Memᴰ f [] ⊎ Memᴰ f [] → ⊥
        nowhere f (inl m) = elim m [ ]
        nowhere f (inr m) = elim m [ ]

    asserted-Resolved :
        (r : Outcome)
        → Visited load root names root [] empty_network [] r
        → Resolved load root (asserted r)
    unfolding asserted
    asserted-Resolved (returned true net) (finished, searching, more, keeps, own) =
        let (all, (list, sorted, loads), covers) =
          collect net none finished [] searching.threaded searching.ordered
            (ListAt.done, tt, λ m t. elim t [ ]) in
        (
          all,
          (
            list,
            sorted,
            λ f. (
              λ m. searching.reached f (only_done f ((covers f).0 m)),
              λ r. (covers f).1 (
                  inl
                    (all_reached root finished searching.ordered (own root (Memᴰ.head refl)) f r)),
            ),
            loads,
          ),
        )
      where
        only_done : (f : CString) → Memᴰ f finished ⊎ Memᴰ f [] → Memᴰ f finished
        only_done f (inl m) = m
        only_done f (inr m) = elim m [ ]
    asserted-Resolved (returned false net) m = elim m [ ]
    asserted-Resolved (thrown problem) h = h
    asserted-Resolved stopped h = h
    asserted-Resolved dangling h = h
    asserted-Resolved out_of_fuel h = h

    pub resolve_dependencies-Resolved :
        Resolved load root (resolve_dependencies (suc (length names)) load root)
    unfolding resolve_dependencies
    resolve_dependencies-Resolved =
        asserted-Resolved (insert_module (suc (length names)) load empty_network root) (
          insert_module-Visits load named root names room listed (suc (length names)) []
            empty_network [] root empty-Searching here (λ s m. elim m [ ])
            (omega (arith, unseen-le empty_network names)))
