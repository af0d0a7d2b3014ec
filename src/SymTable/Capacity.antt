-- ===== src/SymTable/Capacity.antt =====
-- The capacity that `SymTableSpawn` of src/symtable.c is given: while no more symbols are inserted, no symbol
-- moves, so that a pointer to one stays good.
use lemon.Base.{
  Bool-cases, inl, inr, ℕ, suc, ◌+◌, ◌*◌, ◌/◌, ◌≤◌, ◌<◌, ◌≡◌, refl, subst, true, false, Option,
  none, some, get_elem?, get_elem?-lt, get_elem?-last, get_elem?-set_self, ◌==◌, ltb, size_max,
  arith,
}
use lemon.Map.{
  Key, Map, slot_open, slot_closed, Probed, vacant, exists, endless, probe_loop, fill, Insertion,
  failed, duplicate, inserted, map_init, map_insert, map_probe,
}
use lemon.Map.Hash.{map_grow, map_grow_lem, slot_index}
use lemon.Map.Probe.{Stored, Ends, probe-Ends}
use lemon.Map.Update.{kept}
use lemon.Map.Valid.{IsValid}
use lemon.SymTable.{
  Symbol, Table, TableTag, Store, Entered, stopped, already, entered, fits, sym_table_spawn,
  sym_table_insert, insert_at, write_entries,
}
use lemon.SymTable.Scopes.{IsScoped}

-- There is room for so many symbols more.
abbrev pub HasRoom : ℕ → Table → Type 0
HasRoom n table = 2 * (table.entries.len + n) ≤ table.entries.cap

-- what an insertion without a resize leaves
abbrev Stays : Map Symbol → Key → Symbol → Insertion Symbol → Type 0
Stays m key value failed = Unit {0}
Stays m key value (duplicate m') = Unit {0}
Stays m key value (inserted i m') =
    (m'.cap ≡ m.cap)
    × (m'.len ≡ m.len + 1)
    × Stored m' i key value
    × ((j : ℕ) (k : Key) (v : Symbol) → Stored m j k v → Stored m' j k v)

module _ (m : Map Symbol) (valid : IsValid m) (key : Key) (value : Symbol) where
  fill-Stays : (r : Probed) → Ends m valid.sized key r → Stays m key value (fill m key value r)
  unfolding fill
  fill-Stays (vacant i) (n, small, e, free, before) = (
    refl,
    refl,
    get_elem?-set_self m.buf i (slot_closed key value) (get_elem?-lt m.buf i slot_open free),
    λ j k v at.
        kept m valid i slot_open (slot_closed key value) (m.len + 1) free j k v
          (λ same. clash j k v (subst (λ x. get_elem? m.buf x ≡ some slot_open) same free) at) at,
  )
    where
      clash :
          (j : ℕ) (k : Key) (v : Symbol) → get_elem? m.buf j ≡ some slot_open → Stored m j k v → ⊥
      clash j k v e at = cc
  fill-Stays exists ends = tt
  fill-Stays endless ends = tt

  map_insert-Stays :
      (n : ℕ) → 2 * (m.len + suc n) ≤ m.cap → Stays m key value (map_insert m key value)
  unfolding map_insert map_probe
  map_insert-Stays n room =
      let light : ltb m.cap (2 * m.len) ≡ false = ground (arith, room) in
      let below : ltb m.len m.cap ≡ true = ground (arith, room) in
      elim (Bool-cases (m.len == size_max)) [
        | inl full ↦ rw full tt
        | inr countable ↦
            rw (countable, light, below)
              (fill-Stays (probe_loop m.cap m key (slot_index key m.cap))
                (probe-Ends m valid.sized key))
      ]

-- The symbols of a table stay in their slots, and a new one is in the slot that is returned.
abbrev pub Holds : Table → Table → ℕ → Key → Symbol → Type 0
Holds table table' slot key value =
    Stored table'.entries slot key value
    × ((j : ℕ) (k : Key) (v : Symbol) → Stored table.entries j k v → Stored table'.entries j k v)

-- what an insertion comes to while there is room
abbrev pub Settles : Store → ℕ → Table → Key → Symbol → ℕ → Entered → Type 0
Settles store t table key value n stopped = Unit {0}
Settles store t table key value n (already store') = Unit {0}
Settles store t table key value n (entered slot store') =
    (table' : Table) × (get_elem? store' t ≡ some table')
    × HasRoom n table'
    × Holds table table' slot key value

-- In a well-formed tree, an insertion into a table with room for one symbol more leaves room for one less:
-- where it enters a symbol, every symbol of the table is still in its slot, and the new one is in the slot
-- that is returned, so that no pointer to a symbol goes bad.
pub sym_table_insert-Settles :
    (store : Store) (t : ℕ) (table : Table) (key : Key) (value : Symbol) (n : ℕ)
    → IsScoped store
    → get_elem? store t ≡ some table
    → HasRoom (suc n) table
    → Settles store t table key value n (sym_table_insert store t key value)
unfolding sym_table_insert insert_at write_entries
sym_table_insert-Settles store t table key value n scoped there room = rw there (
    settled (map_insert table.entries key value)
      (map_insert-Stays table.entries (scoped.valid t table there) key value n room))
  where
    settled :
        (r : Insertion Symbol)
        → Stays table.entries key value r
        → Settles store t table key value n (write_entries store t table r)
    settled failed h = tt
    settled (duplicate m) h = tt
    settled (inserted slot m) (same, more, at, stay) = (
      record table { entries = m },
      get_elem?-set_self store t (record table { entries = m }) (get_elem?-lt store t table there),
      omega (arith, same, more, room),
      (at, stay),
    )

-- a new table with room
abbrev Roomy : ℕ → Option (Store × ℕ) → Type 0
Roomy cap_ none = Unit {0}
Roomy cap_ (some made) =
    (table : Table) × (get_elem? made.0 made.1 ≡ some table) × HasRoom cap_ table

-- The new table of `SymTableSpawn` has room for as many symbols as it is told, from 1 to some 2 ^ 63.
sym_table_spawn-Roomy :
    (store : Store) (parent : Option ℕ) (tag : TableTag) (room : ℕ)
    → 0 < room
    → room < size_max / 2
    → Roomy room (sym_table_spawn store parent tag room)
unfolding sym_table_spawn map_init
sym_table_spawn-Roomy store parent tag room pos small = elim (Bool-cases (fits parent tag)) [
  | inl e ↦ rw e (
    record { tag = tag; parent = parent; entries = map_init (map_grow room) },
    get_elem?-last store _,
    omega (arith, map_grow_lem room pos small),
  )
  | inr e ↦ rw e tt
]
