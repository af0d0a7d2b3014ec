-- ===== src/Resolver/Places.antt =====
-- The store of modules of src/resolver.c under the writes of its search: what a pointer shows, and what of
-- the list and of the count of the missing files stays.
use lemon.Base.{
  ℕ, zero, suc, ◌+◌, ◌≤◌, ◌≡◌, refl, sym, ap, ◌∙◌, inl, inr, subst, Option, none, some,
  Option-cases, option_some, List, [], ◌∷◌, get_elem?, length, if◌then◌else◌, ◌==◌, arith,
}
use lemon.Map.{map_get}
use lemon.Parser.Tree.{CString, Module}
use lemon.Resolver.{Vertex, Network, modify}
use lemon.Resolver.Loads.{Loaded, loaded}
use lemon.Resolver.Search.{At, missing, unseen, Threaded, Keeps}
use mathlib.Core.List.{Memᴰ}

-- a write to one module, as a pointer shows it
pub modify_lem :
    (h : Vertex → Vertex) (vs : List Vertex) (i j : ℕ) (v : Vertex)
    → get_elem? vs j ≡ some v
    → get_elem? (modify h vs i) j ≡ some (if i == j then h v else v)
unfolding modify
modify_lem h [] i j v e = absurd (cc)
modify_lem h (x ∷ vs) zero zero v e = ap (λ u. some (h u)) (option_some e)
modify_lem h (x ∷ vs) zero (suc j) v e = ground arith
modify_lem h (x ∷ vs) (suc i) zero v e = ground arith
modify_lem h (x ∷ vs) (suc i) (suc j) v e = ground (arith, modify_lem h vs i j v)

pub length-modify :
    (h : Vertex → Vertex) (vs : List Vertex) (i : ℕ) → length (modify h vs i) ≡ length vs
unfolding modify
length-modify h [] i = refl
length-modify h (x ∷ vs) zero = refl
length-modify h (x ∷ vs) (suc i) = ap suc (length-modify h vs i)

pub missing_le : (o : Option ℕ) → missing o ≤ 1
missing_le none = omega arith
missing_le (some i) = omega arith

-- The files in the graph do not get fewer.
pub unseen_mono :
    (net net' : Network) (names : List CString)
    → Keeps net net'
    → unseen net' names ≤ unseen net names
unseen_mono net net' [] keeps = omega arith
unseen_mono net net' (f ∷ names) keeps =
    let rest = unseen_mono net net' names keeps in
    elim (Option-cases (map_get net.dependencies f)) [
      | inl e ↦ rw e (omega (arith, rest, missing_le (map_get net'.dependencies f)))
      | inr (i, e) ↦ rw (e, keeps f i e) (omega (arith, rest))
    ]

-- They get more by a name that was missing.
pub unseen_drop :
    (net net' : Network) (names : List CString) (f : CString) (i : ℕ)
    → Keeps net net'
    → Memᴰ f names
    → map_get net.dependencies f ≡ none
    → map_get net'.dependencies f ≡ some i
    → unseen net' names + 1 ≤ unseen net names
unseen_drop net net' [] f i keeps m before after = elim m [ ]
unseen_drop net net' (g ∷ names) f i keeps (Memᴰ.head e) before after =
    let before' : map_get net.dependencies g ≡ none =
      subst (λ u. map_get net.dependencies u ≡ none) e before in
    let after' : map_get net'.dependencies g ≡ some i =
      subst (λ u. map_get net'.dependencies u ≡ some i) e after in
    rw (before', after') (omega (arith, unseen_mono net net' names keeps))
unseen_drop net net' (g ∷ names) f i keeps (Memᴰ.tail m) before after =
    let rest = unseen_drop net net' names f i keeps m before after in
    elim (Option-cases (map_get net.dependencies g)) [
      | inl e ↦ rw e (omega (arith, rest, missing_le (map_get net'.dependencies g)))
      | inr (j, e) ↦ rw (e, keeps g j e) (omega (arith, rest))
    ]

module _ (load : CString → Loaded) where
  -- the list stays where a change of the network keeps what its modules show
  pub Threaded-keep :
      (net net' : Network) (next : Option ℕ) (fs : List CString)
      → net'.head ≡ net.head
      → ((f : CString) (i : ℕ) (v : Vertex)
          → Memᴰ f fs
          → At load net f i v
          → (v' : Vertex) × At load net' f i v' × (v'.next ≡ v.next))
      → Threaded load net next fs
      → Threaded load net' next fs
  Threaded-keep net net' next [] same keep h = same ∙ h
  Threaded-keep net net' next (f ∷ fs) same keep (i, v, at, e, rest) =
      let (v', at', e') = keep f i v (Memᴰ.head refl) at in
      (
        i,
        v',
        at',
        e' ∙ e,
        Threaded-keep net net' (some i) fs same (λ g j w m. keep g j w (Memᴰ.tail m)) rest,
      )

  module _ (named : (f : CString) (ast : Module) → load f ≡ loaded ast → ast.alias ≡ f) where
    -- two files have two modules
    pub At-inj :
        (net : Network) (f g : CString) (i : ℕ) (v w : Vertex)
        → At load net f i v
        → At load net g i w
        → f ≡ g
    At-inj net f g i v w at at' =
        let same : v ≡ w = option_some (sym at.shown ∙ at'.shown) in
        sym (named f v.ast at.source) ∙ ap (λ u. u.ast.alias) same ∙ named g w.ast at'.source
