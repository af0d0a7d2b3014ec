-- ===== src/Tests/SymTableExamples.antt =====
-- The theorems on the symbol table at concrete scopes.
use lemon.Base.{
  ℕ, zero, suc, get_elem?, ◌≡◌, ◌<◌, refl, true, Option, none, some, List, [], ◌∷◌, length, codes,
  option_some, arith, ap, sym, ◌∙◌, subst,
}
use lemon.Map.{map_init}
use lemon.Map.Valid.{IsValid, init-IsValid}
use lemon.SymTable
use lemon.SymTable.{
  Symbol, native, label, Table, table_global, table_module, table_function, Store, Lookup, found,
  sym_table_spawn, sym_table_insert, sym_table_lookup,
}
use lemon.SymTable.Entries.{EntersAt, sym_table_insert-EntersAt}
use lemon.SymTable.Scopes.{IsScoped, Sees, sym_table_lookup-Sees}
use lemon.SymTable.Spawning.{Spawns, sym_table_spawn-Spawns}

abbrev global : Table
global = record { tag = table_global; parent = none; entries = map_init 2 }

abbrev inner : Table
inner = record { tag = table_module; parent = some 0; entries = map_init 2 }

-- an empty module inside an empty global scope
abbrev scopes : Store
scopes = global ∷ inner ∷ []

scopes-IsScoped : IsScoped scopes
scopes-IsScoped = record { valid = valid; above = above }
  where
    empty : IsValid (map_init {V = Symbol} 2)
    empty = init-IsValid Symbol 2 (omega arith)

    valid : (t : ℕ) (table : Table) → get_elem? scopes t ≡ some table → IsValid table.entries
    valid zero table e = subst (λ x. IsValid x.entries) (option_some e) empty
    valid (suc zero) table e = subst (λ x. IsValid x.entries) (option_some e) empty
    valid (suc (suc t)) table e = absurd (cc)

    above :
        (t p : ℕ) (table : Table) → get_elem? scopes t ≡ some table → table.parent ≡ some p → p < t
    above zero p table e up =
        let nothing : none ≡ some p = ap (λ x. x.parent) (option_some e) ∙ up in absurd (cc)
    above (suc zero) p table e up =
        let top : 0 ≡ p = option_some (ap (λ x. x.parent) (option_some e) ∙ up) in
        omega (arith, top)
    above (suc (suc t)) p table e up = absurd (cc)

sym_table_lookup-Sees_example : Sees scopes (codes "x") 1 (sym_table_lookup 2 scopes (codes "x") 1)
sym_table_lookup-Sees_example =
    sym_table_lookup-Sees scopes scopes-IsScoped (codes "x") 2 1 (omega arith) (omega arith)

sym_table_insert-EntersAt_example :
    EntersAt scopes 1 inner
      (codes "x")
      (label 7 true)
      (sym_table_insert scopes 1 (codes "x") (label 7 true))
unfolding map_init
sym_table_insert-EntersAt_example =
    sym_table_insert-EntersAt scopes scopes-IsScoped 1 inner refl (codes "x") (label 7 true)
      (omega arith)

sym_table_spawn-Spawns_example :
    Spawns scopes (some 1) table_function (sym_table_spawn scopes (some 1) table_function 4)
sym_table_spawn-Spawns_example =
    sym_table_spawn-Spawns scopes (some 1) table_function 4 scopes-IsScoped
      (λ p e. omega (arith, option_some e))

-- The global table has the native types, and a name of an inner scope hides one of the outer.
abbrev initial : Option (Store × ℕ)
initial = SymTable.sym_table_init [] 3

abbrev meaning : Option (Store × ℕ) → Lookup
meaning none = SymTable.missing
meaning (some (store, global)) = sym_table_lookup 1 store (codes "int32") global

native_found : meaning initial ≡ found 0 (native 4)
unfolding SymTable.running lemon.Base.bytes_eq
native_found = refl
