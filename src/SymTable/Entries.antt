-- ===== src/SymTable/Entries.antt =====
-- `SymTableInsert` of src/symtable.c: a name in one scope, and what the names of the others mean.
use lemon.Base.{
  ℕ, ◌<◌, ◌≡◌, refl, sym, ap, ◌∙◌, ◌⊎◌, inl, inr, subst, false, none, some, option_some, get_elem?,
  get_elem?-lt, get_elem?-set_self, get_elem?-set_ne, set, bytes_eq, bytes_eq_refl, size_max,
  ℕ_discrete,
}
use lemon.Map.{Key, Map, Insertion, failed, duplicate, inserted, map_get, map_insert}
use lemon.Map.Insert.{map_insert-Inserts}
use lemon.Map.Update.{Inserts}
use lemon.Map.Valid.{IsValid}
use lemon.SymTable.{
  Symbol, Table, Store, Entered, stopped, already, entered, found, write_entries, insert_at,
  sym_table_insert,
}
use lemon.SymTable.Scopes.{IsScoped, Sees, here, outside, nowhere, Keeps}

-- What `SymTableInsert` comes to: NULL for a name that the table itself has, and every name means what it
-- meant in every table; or the symbol is in the table, is
-- what the name means there, and every other name means what it meant in every table.
abbrev pub EntersAt : Store → ℕ → Table → Key → Symbol → Entered → Type 0
EntersAt store t table key value stopped = ⊥
EntersAt store t table key value (already store') =
    IsScoped store'
    × ((v : Symbol) × (map_get table.entries key ≡ some v))
    × ((q : Key) → Keeps store store' q)
EntersAt store t table key value (entered slot store') =
    IsScoped store'
    × (map_get table.entries key ≡ none)
    × Sees store' key t (found t value)
    × ((q : Key) → bytes_eq key q ≡ false → Keeps store store' q)

module _ (store : Store) (scoped : IsScoped store) (t : ℕ) (table : Table)
    (there : get_elem? store t ≡ some table) (m : Map Symbol) where
  abbrev pub written : Store
  written = set store t (record table { entries = m })

  pub at_self : get_elem? written t ≡ some (record table { entries = m })
  at_self = get_elem?-set_self store t _ (get_elem?-lt store t table there)

  -- what a table of the new store was before
  pub was :
      (u : ℕ) (new : Table)
      → get_elem? written u ≡ some new
      → ((u ≡ t) × (new ≡ record table { entries = m })) ⊎ (get_elem? store u ≡ some new)
  was u new e = elim (ℕ_discrete t u) [
    | yes same ↦ inl (
      sym same,
      option_some (sym (subst (λ x. get_elem? written x ≡ some new) (sym same) e) ∙ at_self),
    )
    | no other ↦ inr (sym (get_elem?-set_ne store t u _ other) ∙ e)
  ]

  pub written-IsScoped : IsValid m → IsScoped written
  written-IsScoped ok = record {
    valid = λ u new e. elim (was u new e) [
      | inl (same, is) ↦ subst (λ x. IsValid x.entries) (sym is) ok
      | inr old ↦ scoped.valid u new old
    ];
    above = λ u p new e up. elim (was u new e) [
      | inl (same, is) ↦
          subst (λ x. p < x) (sym same)
            (scoped.above t p table there (ap (λ x. x.parent) (sym is) ∙ up))
      | inr old ↦ scoped.above u p new old up
    ];
  }

  kept :
      (q : Key)
      → map_get m q ≡ map_get table.entries q
      → (u : ℕ) (old : Table) → get_elem? store u ≡ some old
      → (new : Table) × (get_elem? written u ≡ some new)
        × (new.parent ≡ old.parent)
        × (map_get new.entries q ≡ map_get old.entries q)
  kept q same u old e = elim (ℕ_discrete t u) [
    | yes is ↦
        let e' : get_elem? store t ≡ some old =
          subst (λ x. get_elem? store x ≡ some old) (sym is) e in
        let known : table ≡ old = option_some (sym there ∙ e') in
        (
          record table { entries = m },
          subst (λ x. get_elem? written x ≡ some (record table { entries = m })) is at_self,
          ap (λ x. x.parent) known,
          same ∙ ap (λ x. map_get x.entries q) known,
        )
    | no other ↦ (old, get_elem?-set_ne store t u _ other ∙ e, refl, refl)
  ]

  pub written-Keeps : (q : Key) → map_get m q ≡ map_get table.entries q → Keeps store written q
  written-Keeps q same _ _ (here u old v e get) =
      let (new, e', up', get') = kept q same u old e in here u new v e' (get' ∙ get)
  written-Keeps q same _ _ (outside u p old r e get up sees) =
      let (new, e', up', get') = kept q same u old e in
      outside u p new r e' (get' ∙ get) (up' ∙ up) (written-Keeps q same p r sees)
  written-Keeps q same _ _ (nowhere u old e get up) =
      let (new, e', up', get') = kept q same u old e in nowhere u new e' (get' ∙ get) (up' ∙ up)

module _ (store : Store) (scoped : IsScoped store) (t : ℕ) (table : Table)
    (there : get_elem? store t ≡ some table) (key : Key) (value : Symbol) where
  write_entries-EntersAt :
      (r : Insertion Symbol)
      → Inserts table.entries key value r
      → EntersAt store t table key value (write_entries store t table r)
  unfolding write_entries
  write_entries-EntersAt failed (v, bad) = bad
  write_entries-EntersAt (duplicate m) (ok, has, same) = (
    written-IsScoped store scoped t table there m ok,
    has,
    λ q. written-Keeps store scoped t table there m q (same q),
  )
  write_entries-EntersAt (inserted slot m) (ok, at, fresh, get) = (
    written-IsScoped store scoped t table there m ok,
    fresh,
    here t _ value (at_self store scoped t table there m) (get key ∙ rw (bytes_eq_refl key) refl),
    λ q other. written-Keeps store scoped t table there m q (get q ∙ rw other refl),
  )

  -- `SymTableInsert` into a table of a well-formed tree, below the largest capacity: a name that the table itself
  -- has is refused, with no change to what any name means in any table; any other is then what the table shows for it, whatever the tables around it say, and
  -- every other name means in every table of the tree what it meant before. The tree is well
  -- formed after it, and the program does not stop.
  pub sym_table_insert-EntersAt :
      table.entries.cap < size_max
      → EntersAt store t table key value (sym_table_insert store t key value)
  unfolding sym_table_insert insert_at
  sym_table_insert-EntersAt small = rw there (
      write_entries-EntersAt (map_insert table.entries key value)
        (map_insert-Inserts table.entries (scoped.valid t table there) small key value))
