-- ===== src/SymTable/Scopes.antt =====
-- The scopes of src/symtable.c: what a lookup sees, and how insertion and new tables change it.
use lemon.Base.{
  ℕ, zero, suc, ◌<◌, ◌≡◌, refl, Option, none, some, List, [], ◌∷◌, get_elem?, length, arith,
}
use lemon.Map.{Key, map_get}
use lemon.Map.Valid.{IsValid}
use lemon.SymTable.{
  Symbol, Table, Store, Lookup, found, missing, lookup_parent, lookup_entry, lookup_at,
  sym_table_lookup,
}

-- The tables are well formed, and each stands behind its parent in the store.
pub record IsScoped (store : Store) : Type 0 where
  pub valid : (t : ℕ) (table : Table) → get_elem? store t ≡ some table → IsValid table.entries
  pub above :
      (t p : ℕ) (table : Table) → get_elem? store t ≡ some table → table.parent ≡ some p → p < t

-- What a name means in a scope: its symbol in the table itself, else what it means in the parent, else
-- nothing.
pub data Sees (store : Store) (key : Key) : ℕ → Lookup → Type 0 where
  here :
      (t : ℕ) (table : Table) (v : Symbol)
      → get_elem? store t ≡ some table
      → map_get table.entries key ≡ some v
      → Sees store key t (found t v)
  outside :
      (t p : ℕ) (table : Table) (r : Lookup)
      → get_elem? store t ≡ some table
      → map_get table.entries key ≡ none
      → table.parent ≡ some p
      → Sees store key p r
      → Sees store key t r
  nowhere :
      (t : ℕ) (table : Table)
      → get_elem? store t ≡ some table
      → map_get table.entries key ≡ none
      → table.parent ≡ none
      → Sees store key t missing

present {ℓ} :
    {A : Type ℓ} (xs : List A) (i : ℕ) → i < length xs → (a : A) × (get_elem? xs i ≡ some a)
present [] i lt = absurd (omega (arith, lt))
present (x ∷ xs) zero lt = (x, refl)
present (x ∷ xs) (suc i) lt = present xs i (omega (arith, lt))

module _ (store : Store) (scoped : IsScoped store) (key : Key) where
  -- `SymTableLookup` finds what the name means in the scope, whatever the table of the store and the name, and
  -- with more fuel than the index of the table: it ends, and meets no pointer to a table that is not there.
  pub sym_table_lookup-Sees :
      (fuel t : ℕ)
      → t < fuel
      → t < length store
      → Sees store key t (sym_table_lookup fuel store key t)
  unfolding sym_table_lookup lookup_at lookup_entry lookup_parent
  sym_table_lookup-Sees zero t lt there = absurd (omega (arith, lt))
  sym_table_lookup-Sees (suc fuel) t lt there =
      let (table, e) = present store t there in
      rw e (
        at_table table e (map_get table.entries key) refl table.parent refl (λ p less.
          sym_table_lookup-Sees fuel p (omega (arith, less, lt)) (omega (arith, less, there))))
    where
      at_table :
          (table : Table)
          → get_elem? store t ≡ some table
          → (o : Option Symbol) → map_get table.entries key ≡ o
          → (p : Option ℕ) → table.parent ≡ p
          → ((u : ℕ) → u < t → Sees store key u (sym_table_lookup fuel store key u))
          → Sees store key t (lookup_entry t (lookup_parent (sym_table_lookup fuel store key) p) o)
      at_table table e (some v) get p up upward = here t table v e get
      at_table table e none get none up upward = nowhere t table e get up
      at_table table e none get (some p) up upward =
          outside t p table _ e get up (upward p (scoped.above t p table e up))

-- the two stores agree on a name in the tables of the first
abbrev pub Keeps : Store → Store → Key → Type 0
Keeps store store' key = (t : ℕ) (r : Lookup) → Sees store key t r → Sees store' key t r
