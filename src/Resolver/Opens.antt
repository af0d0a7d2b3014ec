-- ===== src/Resolver/Opens.antt =====
-- `InsertModule` of src/resolver.c up to its call of `InsertChildren`: a file that is not in the graph gets a
-- vertex there, which is on the call stack.
use lemon.Base.{
  ℕ, ◌+◌, ◌*◌, ◌/◌, ◌≤◌, ◌<◌, ◌≡◌, refl, sym, ◌∙◌, inl, inr, ◌⊎◌, subst, Option, none, some,
  Bool-cases, option_some, List, [], ◌∷◌, ◌++◌, get_elem?-append, get_elem?-last, length,
  length-append, bytes_eq, bytes_eq_eq, bytes_eq_refl, if◌then◌else◌, size_max, arith,
}
use lemon.Graph.{graph_insert}
use lemon.Map.{Map, Insertion, failed, duplicate, inserted, map_get, map_insert}
use lemon.Map.Hash.{map_grow, map_grow_lem}
use lemon.Map.Insert.{Extends, map_insert-Extends, map_insert-Inserts}
use lemon.Map.Update.{Inserts}
use lemon.Map.Valid.{IsValid}
use lemon.Parser.Tree.{CString, Module}
use lemon.Resolver.{Vertex, Network, open_vertex, on_call_stack}
use lemon.Resolver.Loads.{Loaded, loaded}
use lemon.Resolver.Places.{unseen_drop, Threaded-keep}
use lemon.Resolver.Search.{At, unseen, Keeps, Marked, Latest, Searching}
use mathlib.Core.List.{Memᴰ}

module _ (load : CString → Loaded) (root : CString) (names : List CString)
    (room : 16 + 4 * length names < size_max / 2) where
  -- What the new vertex makes of the network.
  abbrev pub Opened : Network → List CString → List CString → CString → Option Network → Type 0
  Opened net finished stack f none = ⊥
  Opened net finished stack f (some net') =
      Searching load root names net' finished (f ∷ stack)
      × Keeps net net'
      × (unseen net' names + 1 ≤ unseen net names)
      × (map_get net'.dependencies f ≡ some (length net.modules))

  module _ (net : Network) (finished stack : List CString) (f : CString) (ast : Module)
      (search : Searching load root names net finished stack) (source : load f ≡ loaded ast)
      (listed : Memᴰ f names) (fresh : map_get net.dependencies f ≡ none) where
    abbrev vertex : Vertex
    vertex = record { ast = ast; flag = on_call_stack; next = none }

    abbrev grown : Map ℕ → Network
    grown graph = record net { modules = net.modules ++ vertex ∷ []; dependencies = graph }

    module _ (graph : Map ℕ)
        (get : (q : CString)
          → map_get graph q ≡ (
              if bytes_eq f q then some (length net.modules) else map_get net.dependencies q)) where
      own : map_get graph f ≡ some (length net.modules)
      own = get f ∙ rw (bytes_eq_refl f) refl

      keeps : Keeps net (grown graph)
      keeps q i e = elim (Bool-cases (bytes_eq f q)) [
        | inl same ↦
            let e' : map_get net.dependencies f ≡ some i =
              subst (λ u. map_get net.dependencies u ≡ some i) (sym (bytes_eq_eq f q same)) e in
            absurd (cc)
        | inr other ↦ get q ∙ rw other e
      ]

      carried : (q : CString) (i : ℕ) (v : Vertex) → At load net q i v → At load (grown graph) q i v
      carried q i v at = record {
        mapped = keeps q i at.mapped;
        shown = get_elem?-append net.modules (vertex ∷ []) i v at.shown;
        source = at.source;
      }

      latest : (fs : List CString) → Latest net fs → Latest (grown graph) fs
      latest [] e = e
      latest (q ∷ fs) (i, e, at) = (i, e, keeps q i at)

      new_at : At load (grown graph) f (length net.modules) vertex
      new_at = record { mapped = own; shown = get_elem?-last net.modules vertex; source = source }

      marked :
          (q : CString) (v : Vertex)
          → Marked finished stack q v.flag
          → Marked finished (f ∷ stack) q v.flag
      marked q v m = elim (Bool-cases v.flag) [
        | inl e ↦ rw e (let m' : Memᴰ q finished = subst (Marked finished stack q) e m in m')
        | inr e ↦ rw e (let m' : Memᴰ q stack = subst (Marked finished stack q) e m in Memᴰ.tail m')
      ]

      known :
          (q : CString) (i : ℕ)
          → map_get graph q ≡ some i
          → (v : Vertex) × At load (grown graph) q i v × Marked finished (f ∷ stack) q v.flag
      known q i e = elim (Bool-cases (bytes_eq f q)) [
        | inl same ↦
            let at_i : length net.modules ≡ i =
              option_some
                (sym own ∙ subst (λ u. map_get graph u ≡ some i) (sym (bytes_eq_eq f q same)) e) in
            (
              vertex,
              subst (λ u. At load (grown graph) q u vertex) at_i
                  (subst (λ u. At load (grown graph) u (length net.modules) vertex)
                    (bytes_eq_eq f q same) new_at),
              Memᴰ.head (sym (bytes_eq_eq f q same)),
            )
        | inr other ↦
            let old : map_get net.dependencies q ≡ some i = sym (get q ∙ rw other refl) ∙ e in
            let (v, at, m) = search.known q i old in (v, carried q i v at, marked q v m)
      ]

      entered :
          (q : CString)
          → Memᴰ q finished ⊎ Memᴰ q (f ∷ stack)
          → (i : ℕ) × (map_get graph q ≡ some i)
      entered q (inl m) = let (i, e) = search.entered q (inl m) in (i, keeps q i e)
      entered q (inr (Memᴰ.head e)) =
          (length net.modules, subst (λ u. map_get graph u ≡ some (length net.modules)) (sym e) own)
      entered q (inr (Memᴰ.tail m)) = let (i, e) = search.entered q (inr m) in (i, keeps q i e)

      apart : (q : CString) → Memᴰ q finished → Memᴰ q (f ∷ stack) → ⊥
      apart q m (Memᴰ.head e) =
          let (i, at) = search.entered f (inl (subst (λ u. Memᴰ u finished) e m)) in cc
      apart q m (Memᴰ.tail m') = search.apart q m m'

      grown-Searching :
          IsValid graph
          → graph.len ≤ net.dependencies.len + 1
          → graph.cap ≤ 16 + 4 * (length net.modules + 1)
          → Opened net finished stack f (some (grown graph))
      grown-Searching valid len cap =
          let more = length-append net.modules (vertex ∷ []) in
          let drop =
            unseen_drop net (grown graph) names f (length net.modules) keeps listed fresh own in
          (
            record {
              valid = valid;
              known = known;
              entered = entered;
              apart = apart;
              ordered = search.ordered;
              threaded =
                  Threaded-keep load net (grown graph) none finished refl
                    (λ q i v m at. (v, carried q i v at, refl)) search.threaded;
              latest = latest finished search.latest;
              reached = search.reached;
              counted = omega (arith, more, drop, search.counted);
              short = omega (arith, more, len, search.short);
              narrow = omega (arith, more, cap);
            },
            keeps,
            drop,
            own,
          )

    small : net.dependencies.cap < size_max / 2
    small = omega (arith, search.narrow, search.counted, room)

    opened :
        (r : Insertion ℕ)
        → Inserts net.dependencies f (length net.modules) r
        → Extends net.dependencies r
        → Opened net finished stack f (open_vertex net ast r)
    unfolding open_vertex
    opened failed (v, bad) extends = bad
    opened (duplicate graph) (valid, (v, there), same) extends = cc
    opened (inserted slot graph) (valid, at, gone, get) (len, cap) =
        grown-Searching graph get valid len (capacity cap)
      where
        capacity :
            (graph.cap ≡ net.dependencies.cap)
              ⊎ ((net.dependencies.cap < 2 * net.dependencies.len)
                  × (graph.cap ≡ map_grow net.dependencies.cap))
            → graph.cap ≤ 16 + 4 * (length net.modules + 1)
        capacity (inl e) = omega (arith, e, search.narrow)
        capacity (inr (heavy, e)) = omega (
          arith,
          e,
          heavy,
          search.short,
          map_grow_lem net.dependencies.cap search.valid.sized.pos small,
        )

    -- A file that is not in the graph gets a vertex there, and the search goes on with the file on the
    -- call stack.
    pub open_vertex-Opened :
        Opened net finished stack f
          (open_vertex net ast (graph_insert net.dependencies f (length net.modules)))
    unfolding graph_insert
    open_vertex-Opened =
        opened (map_insert net.dependencies f (length net.modules))
          (map_insert-Inserts net.dependencies search.valid (omega (arith, small)) f
            (length net.modules))
          (map_insert-Extends net.dependencies search.valid (omega (arith, small)) f
            (length net.modules))
