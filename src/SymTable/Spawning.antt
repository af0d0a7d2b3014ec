-- ===== src/SymTable/Spawning.antt =====
-- `SymTableSpawn` of src/symtable.c: a new scope inside another.
use lemon.Base.{
  Bool-cases, ℕ, ◌<◌, ◌≡◌, refl, sym, ap, ◌∙◌, inl, inr, subst, true, false, Option, none, some, [],
  ◌∷◌, ◌++◌, get_elem?, get_elem?-append, get_elem?-last, get_elem?-snoc, length, arith,
}
use lemon.Map.{Key, map_get, map_init}
use lemon.Map.Hash.{map_grow}
use lemon.Map.Valid.{IsValid, init-IsValid, init-empty, map_get-none}
use lemon.SymTable.{Symbol, TableTag, Table, Store, Lookup, missing, fits, sym_table_spawn}
use lemon.SymTable.Scopes.{IsScoped, Sees, here, outside, nowhere, Keeps}

pub map_grow-pos : (cap : ℕ) → 0 < map_grow cap
unfolding map_grow
map_grow-pos cap = ground arith

-- What `SymTableSpawn` comes to, where the parent is a table of the tree: the assertion holds just if the table
-- has a parent or is the global one, and not both; the new table is the last, means by each name what its
-- parent means by it, or nothing if it has none, and leaves what the others mean.
abbrev pub Spawns : Store → Option ℕ → TableTag → Option (Store × ℕ) → Type 0
Spawns store parent tag none = fits parent tag ≡ false
Spawns store parent tag (some made) =
    (fits parent tag ≡ true)
    × IsScoped made.0
    × (made.1 ≡ length store)
    × ((q : Key) → Keeps store made.0 q)
    × ((q : Key) (p : ℕ) (r : Lookup) → parent ≡ some p → Sees store q p r → Sees made.0 q made.1 r)
    × ((q : Key) → parent ≡ none → Sees made.0 q made.1 missing)

module _ (store : Store) (new : Table) where
  abbrev pub longer : Store
  longer = store ++ new ∷ []

  pub at_old : (u : ℕ) (old : Table) → get_elem? store u ≡ some old → get_elem? longer u ≡ some old
  at_old u old e = get_elem?-append store (new ∷ []) u old e

  longer-Keeps : (q : Key) → Keeps store longer q
  longer-Keeps q _ _ (here u old v e get) = here u old v (at_old u old e) get
  longer-Keeps q _ _ (outside u p old r e get up sees) =
      outside u p old r (at_old u old e) get up (longer-Keeps q p r sees)
  longer-Keeps q _ _ (nowhere u old e get up) = nowhere u old (at_old u old e) get up

  pub longer-IsScoped :
      IsScoped store
      → IsValid new.entries
      → ((p : ℕ) → new.parent ≡ some p → p < length store)
      → IsScoped longer
  longer-IsScoped scoped ok below = record {
    valid = λ u tab e. elim (get_elem?-snoc store new u tab e) [
      | inl old ↦ scoped.valid u tab old
      | inr (_, is) ↦ subst (λ x. IsValid x.entries) (sym is) ok
    ];
    above = λ u p tab e up. elim (get_elem?-snoc store new u tab e) [
      | inl old ↦ scoped.above u p tab old up
      | inr (last, is) ↦ subst (λ x. p < x) (sym last) (below p (ap (λ x. x.parent) (sym is) ∙ up))
    ];
  }

-- a new hash table shows no name
fresh_entries : (cap : ℕ) (q : Key) → map_get (map_init {V = Symbol} (map_grow cap)) q ≡ none
fresh_entries cap q =
    map_get-none (map_init (map_grow cap)) (init-IsValid Symbol (map_grow cap) (map_grow-pos cap)) q
      (init-empty Symbol (map_grow cap) q)

abbrev pub new_table : Option ℕ → TableTag → ℕ → Table
new_table parent tag cap = record { tag = tag; parent = parent; entries = map_init (map_grow cap) }

-- `SymTableSpawn` in a well-formed tree, for a parent in it: the new scope is one of an empty table inside that of
-- the parent, the other scopes are what they were, and the tree is well formed; only where a table
-- other than the global one has no parent, or the global one has, does the assertion fail.
pub sym_table_spawn-Spawns :
    (store : Store) (parent : Option ℕ) (tag : TableTag) (cap : ℕ)
    → IsScoped store
    → ((p : ℕ) → parent ≡ some p → p < length store)
    → Spawns store parent tag (sym_table_spawn store parent tag cap)
unfolding sym_table_spawn
sym_table_spawn-Spawns store parent tag capacity scoped below =
    elim (Bool-cases (fits parent tag)) [
      | inr e ↦ rw e e
      | inl e ↦ rw e (
        e,
        longer-IsScoped store (new_table parent tag capacity) scoped
            (init-IsValid Symbol (map_grow capacity) (map_grow-pos capacity)) below,
        refl,
        longer-Keeps store (new_table parent tag capacity),
        λ q p r up sees.
            outside (length store) p (new_table parent tag capacity) r
              (get_elem?-last store (new_table parent tag capacity)) (fresh_entries capacity q) up
              (longer-Keeps store (new_table parent tag capacity) q p r sees),
        λ q up.
            nowhere (length store) (new_table parent tag capacity)
              (get_elem?-last store (new_table parent tag capacity)) (fresh_entries capacity q) up,
      )
    ]
