-- ===== src/SymTable.antt =====
-- src/symtable.c: the tables of the lexical scopes, which stand in a tree, and the search of a name up the tree.
--
-- The tables are in a store, and a pointer to one is its index there. A pointer to a symbol is the index of its
-- slot. The printing of a table as JSON is left out.
pub mod Scopes
pub mod Entries
pub mod Spawning
pub mod Capacity
use lemon.Base.{
  ℕ, zero, suc, ◌+◌, ◌%◌, ◌^◌, Bool, true, false, not, Option, none, some, List, [], ◌∷◌, ◌++◌,
  get_elem?, set, length, if◌then◌else◌, codes,
}
use lemon.Map.{Key, Map, Insertion, failed, duplicate, inserted, map_get, map_init, map_insert}
use lemon.Map
use lemon.Map.Hash.{map_grow}

-- `struct symbol`, by its tags; a table is an index of the store or NULL, and `referenced` comes before `public`
pub data Symbol : Type 0 where
  native : ℕ → Symbol
  module_symbol : Option ℕ → Bool → Symbol
  import_symbol : Option ℕ → ℕ → Bool → Symbol
  function method : Option ℕ → Key → ℕ → Bool → Symbol
  udt : Option ℕ → ℕ → ℕ → Bool → Bool → Symbol
  variable field : Key → ℕ → Bool → Bool → Symbol
  parameter : Key → ℕ → Bool → Symbol
  label : ℕ → Bool → Symbol

pub data TableTag : Type 0 where
  table_global table_module table_function table_method table_udt : TableTag

-- `struct symtable`
pub record Table : Type 0 where
  pub tag : TableTag
  pub parent : Option ℕ
  pub entries : Map Symbol

abbrev pub Store : Type 0
Store = List Table

-- what `SymTableInsert` comes to: the program stops, NULL for a key that exists, whose table may have grown
-- before the key was found, or the slot of the symbol
pub data Entered : Type 0 where
  stopped : Entered
  already : Store → Entered
  entered : ℕ → Store → Entered

-- what `SymTableLookup` comes to: the symbol with its table, NULL, a table that is not there, or no fuel
pub data Lookup : Type 0 where
  found : ℕ → Symbol → Lookup
  missing dangling exhausted : Lookup

abbrev pub is_global : TableTag → Bool
is_global table_global = true
is_global _ = false

-- `assert((parent != NULL) ^ (tag == TABLE_GLOBAL))`
abbrev pub fits : Option ℕ → TableTag → Bool
fits none tag = is_global tag
fits (some p) tag = not (is_global tag)

-- `SymTableSpawn`, with the index of the new table; `none` is the failed assertion
unfoldable pub sym_table_spawn : Store → Option ℕ → TableTag → ℕ → Option (Store × ℕ)
sym_table_spawn store parent tag cap =
    if fits parent tag
    then some (
      store ++ record { tag = tag; parent = parent; entries = map_init (map_grow cap) } ∷ [],
      length store,
    )
    else none

unfoldable pub write_entries : Store → ℕ → Table → Insertion Symbol → Entered
write_entries store t table failed = stopped
write_entries store t table (duplicate m) = already (set store t (record table { entries = m }))
write_entries store t table (inserted slot m) =
    entered slot (set store t (record table { entries = m }))

unfoldable pub insert_at : Store → ℕ → Key → Symbol → Option Table → Entered
insert_at store t key value none = stopped
insert_at store t key value (some table) =
    write_entries store t table (map_insert table.entries key value)

-- `SymTableInsert`
unfoldable pub sym_table_insert : Store → ℕ → Key → Symbol → Entered
sym_table_insert store t key value = insert_at store t key value (get_elem? store t)

unfoldable pub lookup_parent : (ℕ → Lookup) → Option ℕ → Lookup
lookup_parent outer none = missing
lookup_parent outer (some p) = outer p

unfoldable pub lookup_entry : ℕ → Lookup → Option Symbol → Lookup
lookup_entry t outer none = outer
lookup_entry t outer (some value) = found t value

unfoldable pub lookup_at : Key → ℕ → (ℕ → Lookup) → Option Table → Lookup
lookup_at key t outer none = dangling
lookup_at key t outer (some table) =
    lookup_entry t (lookup_parent outer table.parent) (map_get table.entries key)

-- `SymTableLookup`, on fuel for its recursion
unfoldable pub sym_table_lookup : ℕ → Store → Key → ℕ → Lookup
sym_table_lookup zero store key t = exhausted
sym_table_lookup (suc fuel) store key t =
    lookup_at key t (sym_table_lookup fuel store key) (get_elem? store t)

-- the native types with their sizes
abbrev pub natives : List (Key × ℕ)
natives =
    (codes "bool", 1)
    ∷ (codes "byte", 1)
    ∷ (codes "addr", 8)
    ∷ (codes "int8", 1)
    ∷ (codes "int16", 2)
    ∷ (codes "int32", 4)
    ∷ (codes "int64", 8)
    ∷ (codes "uint8", 1)
    ∷ (codes "uint16", 2)
    ∷ (codes "uint32", 4)
    ∷ (codes "uint64", 8)
    ∷ (codes "float32", 4)
    ∷ (codes "float64", 8)
    ∷ (codes "complex64", 8)
    ∷ (codes "complex128", 16)
    ∷ (codes "string", 8)
    ∷ []

-- the loop of `SymTableInit`, which asserts that no entry is a duplicate
unfoldable pub insert_natives : List (Key × ℕ) → ℕ → Store → Option Store
insert_natives [] global store = some store
insert_natives ((key, bytes) ∷ pairs) global store =
    elim (sym_table_insert store global key (native bytes)) [
      | stopped ↦ none
      | already store' ↦ none
      | entered slot store' ↦ insert_natives pairs global store'
    ]

unfoldable pub populate : Option (Store × ℕ) → Option (Store × ℕ)
populate none = none
populate (some (store, global)) = elim (insert_natives natives global store) [
  | none ↦ none
  | some store' ↦ some (store', global)
]

-- `SymTableInit`, with the store and the index of the global table
unfoldable pub sym_table_init : Store → ℕ → Option (Store × ℕ)
sym_table_init store total_modules =
    populate (sym_table_spawn store none table_global ((total_modules + length natives) % 2 ^ 64))

-- `SymbolLookupName` and `SymTableLookupName`
unfoldable pub symbol_lookup_name : Symbol → Key
symbol_lookup_name (native _) = codes "native"
symbol_lookup_name (module_symbol _ _) = codes "module"
symbol_lookup_name (import_symbol _ _ _) = codes "import"
symbol_lookup_name (function _ _ _ _) = codes "function"
symbol_lookup_name (method _ _ _ _) = codes "method"
symbol_lookup_name (udt _ _ _ _ _) = codes "udt"
symbol_lookup_name (variable _ _ _ _) = codes "variable"
symbol_lookup_name (field _ _ _ _) = codes "field"
symbol_lookup_name (parameter _ _ _) = codes "parameter"
symbol_lookup_name (label _ _) = codes "label"

unfoldable pub sym_table_lookup_name : TableTag → Key
sym_table_lookup_name table_global = codes "global"
sym_table_lookup_name table_module = codes "module"
sym_table_lookup_name table_function = codes "function"
sym_table_lookup_name table_method = codes "method"
sym_table_lookup_name table_udt = codes "udt"

-- all that a run computes with
unfoldable pub running : Unit {0}
unfolding sym_table_spawn write_entries insert_at sym_table_insert lookup_parent lookup_entry
    lookup_at sym_table_lookup insert_natives populate sym_table_init symbol_lookup_name
    sym_table_lookup_name Map.running
running = tt
