-- ===== src/Resolver/Closes.antt =====
-- The end of `InsertModule` of src/resolver.c: a file whose imports are done is put at the end of the list and
-- leaves the call stack.
use lemon.Base.{
  ℕ, ◌+◌, ◌≤◌, ◌≡◌, ◌≢◌, ◌⊎◌, refl, sym, ap, ◌∙◌, inl, inr, subst, Bool, true, false, Option, none,
  some, option_some, List, [], ◌∷◌, length, ◌==◌, arith, ℕ_discrete,
}
use lemon.Map.{map_get}
use lemon.Map.Valid.{IsValid}
use lemon.Parser.Tree.{CString, Module}
use lemon.Resolver.{Vertex, Network, write_flag, link, sort}
use lemon.Resolver.Imports.{Imports, Reaches, aliases}
use lemon.Resolver.Loads.{Loaded, loaded}
use lemon.Resolver.Places.{Threaded-keep, At-inj}
use lemon.Resolver.Search.{At, Marked, Ordered, Threaded, Latest, unseen, Searching}
use mathlib.Core.List.{Memᴰ}
use lemon.Resolver.Sorts.{
  closed, closed_get, closed-get, closed-same, linked, linked-keep, module_after, module_after-ast,
  module_after_self, module_after_other,
}

module _ (load : CString → Loaded)
    (named : (f : CString) (ast : Module) → load f ≡ loaded ast → ast.alias ≡ f) (root : CString)
    (names : List CString) (net : Network) (finished stack : List CString) (f : CString)
    (ast : Module) (search : Searching load root names net finished (f ∷ stack))
    (source : load f ≡ loaded ast) (new : Memᴰ f stack → ⊥) (i : ℕ)
    (at_i : map_get net.dependencies f ≡ some i)
    (children : (g : CString) → Memᴰ g (aliases ast.imports) → Memᴰ g finished)
    (from_root : Reaches load root f) where
  abbrev net' : Network
  net' = closed net i

  same_deps : net'.dependencies ≡ net.dependencies
  same_deps = (closed-same net i).0

  get_same : (q : CString) → map_get net'.dependencies q ≡ map_get net.dependencies q
  get_same = closed_get net i

  carried :
      (q : CString) (j : ℕ) (v : Vertex)
      → At load net q j v
      → At load net' q j (module_after net i j v)
  carried q j v at = record {
    mapped = get_same q ∙ at.mapped;
    shown = closed-get net i j v at.shown;
    source = at.source ∙ ap loaded (sym (module_after-ast net i j v));
  }

  -- only this file has its pointer
  only : (q : CString) (j : ℕ) → map_get net.dependencies q ≡ some j → i ≡ j → q ≡ f
  only q j e same =
      let (v, at, m) = search.known q j e in
      let (w, at', m') = search.known f j (at_i ∙ ap some same) in
      At-inj load named net q f j v w at at'

  not_finished : Memᴰ f finished → ⊥
  not_finished m = search.apart f m (Memᴰ.head refl)

  finished_apart :
      (q : CString) (j : ℕ) → Memᴰ q finished → map_get net.dependencies q ≡ some j → i ≢ j
  finished_apart q j m e same = not_finished (subst (λ u. Memᴰ u finished) (only q j e same) m)

  marked :
      (q : CString) (b : Bool)
      → q ≢ f
      → Marked finished (f ∷ stack) q b
      → Marked (f ∷ finished) stack q b
  marked q true ne m = Memᴰ.tail m
  marked q false ne (Memᴰ.head e) = absurd (ne e)
  marked q false ne (Memᴰ.tail m) = m

  known :
      (q : CString) (j : ℕ)
      → map_get net'.dependencies q ≡ some j
      → (v : Vertex) × At load net' q j v × Marked (f ∷ finished) stack q v.flag
  known q j e =
      let e' : map_get net.dependencies q ≡ some j = sym (get_same q) ∙ e in
      let (v, at, m) = search.known q j e' in
      elim (ℕ_discrete i j) [
        | yes same ↦ (
          module_after net i j v,
          carried q j v at,
          subst (Marked (f ∷ finished) stack q)
              (sym (
                ap (λ u. (module_after net i u v).flag) (sym same) ∙ (module_after_self net i v).0))
              (Memᴰ.head (only q j e' same)),
        )
        | no other ↦ (
          module_after net i j v,
          carried q j v at,
          subst (Marked (f ∷ finished) stack q)
              (sym (
                ap Vertex.flag (module_after_other net i j v other)
                ∙ (linked-keep net.prev i j v).1))
              (marked q v.flag
                (λ same. other (
                  option_some
                    (sym at_i ∙ subst (λ u. map_get net.dependencies u ≡ some j) same e')))
                m),
        )
      ]

  entered :
      (q : CString)
      → Memᴰ q (f ∷ finished) ⊎ Memᴰ q stack
      → (j : ℕ) × (map_get net'.dependencies q ≡ some j)
  entered q (inl (Memᴰ.head e)) =
      let (j, e') = search.entered q (inr (Memᴰ.head e)) in (j, get_same q ∙ e')
  entered q (inl (Memᴰ.tail m)) = let (j, e) = search.entered q (inl m) in (j, get_same q ∙ e)
  entered q (inr m) = let (j, e) = search.entered q (inr (Memᴰ.tail m)) in (j, get_same q ∙ e)

  apart : (q : CString) → Memᴰ q (f ∷ finished) → Memᴰ q stack → ⊥
  apart q (Memᴰ.head e) m = new (subst (λ u. Memᴰ u stack) e m)
  apart q (Memᴰ.tail m) m' = search.apart q m (Memᴰ.tail m')

  imports_first : (g : CString) → Imports load f g → Memᴰ g finished
  imports_first g (ast', e, m) =
      let same : ast' ≡ ast = cc in children g (subst (λ u. Memᴰ g (aliases u.imports)) same m)

  reached : (q : CString) → Memᴰ q (f ∷ finished) → Reaches load root q
  reached q (Memᴰ.head e) = subst (Reaches load root) (sym e) from_root
  reached q (Memᴰ.tail m) = search.reached q m

  -- a file that is neither this one nor at the end of the list keeps its module
  linked-far :
      (prev : Option ℕ) (p j : ℕ) (v : Vertex) → prev ≡ some p → p ≢ j → linked prev i j v ≡ v
  unfolding linked
  linked-far none p j v e ne = refl
  linked-far (some p') p j v e ne =
      let same : p' ≡ p = option_some e in let off : (p' == j) ≡ false = ground arith in rw off refl

  linked-near :
      (prev : Option ℕ) (p : ℕ) (v : Vertex) → prev ≡ some p → (linked prev i p v).next ≡ some i
  unfolding linked
  linked-near none p v e = absurd (cc)
  linked-near (some p') p v e =
      let same : p' ≡ p = option_some e in let on : (p' == p) ≡ true = ground arith in rw on refl

  head-keep : (prev : Option ℕ) (p : ℕ) → prev ≡ some p → (link net prev i).head ≡ net.head
  unfolding link
  head-keep none p e = absurd (cc)
  head-keep (some p') p e = refl

  head-first : (prev : Option ℕ) → prev ≡ none → (link net prev i).head ≡ some i
  unfolding link
  head-first none e = refl
  head-first (some p) e = absurd (cc)

  -- the list up to the module before the new one, whose pointer is now set
  threaded :
      (fs : List CString)
      → ((q : CString) → Memᴰ q fs → Memᴰ q finished)
      → Ordered load fs
      → Latest net fs
      → Threaded load net none fs
      → Threaded load net' (some i) fs
  unfolding write_flag sort
  threaded [] old ordered latest h = head-first net.prev latest
  threaded (q ∷ fs) old (first, alone, ordered) (p, e, at_p) (j, v, at, end, rest) =
      let same : p ≡ j = option_some (sym at_p ∙ at.mapped) in
      let prev_j : net.prev ≡ some j = e ∙ ap some same in
      let other = finished_apart q j (old q (Memᴰ.head refl)) at.mapped in
      (
        j,
        module_after net i j v,
        carried q j v at,
        ap Vertex.next (module_after_other net i j v other) ∙ linked-near net.prev j v prev_j,
        Threaded-keep load net net' (some j) fs (head-keep net.prev j prev_j)
            (λ g k w m at'. (
              module_after net i k w,
              carried g k w at',
              ap Vertex.next (
                  module_after_other net i k w (finished_apart g k (old g (Memᴰ.tail m)) at'.mapped)
                  ∙ linked-far net.prev j k w prev_j (behind g k w m at')),
            ))
            rest,
      )
    where
      behind : (g : CString) (k : ℕ) (w : Vertex) → Memᴰ g fs → At load net g k w → j ≢ k
      behind g k w m at' e' = alone (
          subst (λ u. Memᴰ u fs)
            (At-inj load named net g q j w v (subst (λ u. At load net g u w) (sym e') at') at) m)

  -- Where all that a file imports is done, the end of its `InsertModule` leaves it done too, behind them at
  -- the end of the list.
  pub closed-Searching : Searching load root names (closed net i) (f ∷ finished) stack
  unfolding write_flag sort
  closed-Searching =
      let (v, at, m) = search.known f i at_i in
      record {
        valid = subst IsValid (sym same_deps) search.valid;
        known = known;
        entered = entered;
        apart = apart;
        ordered = (imports_first, not_finished, search.ordered);
        threaded = (
          i,
          module_after net i i v,
          carried f i v at,
          (module_after_self net i v).1,
          threaded finished (λ q m. m) search.ordered search.latest search.threaded,
        );
        latest = (i, prev-closed, get_same f ∙ at_i);
        reached = reached;
        counted =
            subst
              (λ d.
                length net'.modules + unseen (record net' { dependencies = d }) names
                ≤ length names)
              (sym same_deps) (omega (arith, (closed-same net i).1, search.counted));
        short = rw same_deps (omega (arith, (closed-same net i).1, search.short));
        narrow = rw same_deps (omega (arith, (closed-same net i).1, search.narrow));
      }
    where
      prev-closed : net'.prev ≡ some i
      prev-closed = refl
