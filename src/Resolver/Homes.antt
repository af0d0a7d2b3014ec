-- ===== src/Resolver/Homes.antt =====
-- The lookups of types of src/resolver.c keep the stack of tables: the temporary stack of another module is
-- left for the old one.
use lemon.Base.{
  ℕ, ◌≡◌, refl, inl, inr, true, false, Bool-cases, Option, none, some, Option-cases, ◌∷◌, get_elem?,
}
use lemon.Map.{Key}
use lemon.Parser.Tree.{TypeNode, base, named, pointer, array}
use lemon.Resolver.Frames.{
  Frame, Result, Action, ok, thrown, stopped, out_of_fuel, pure, bind, ◌>>=◌, ◌>>◌, look, looked_up,
  lookup_symbol, load_temporary_stack, unload_temporary_stack, restored, nonzero,
}
use lemon.Resolver.Primitives.{
  pure-Steady, stop-Steady, raise_if-Steady, lookup_symbol-Steady, write_symbol-Steady,
}
use lemon.Resolver.Steady.{Sound, InRange, Kept-InRange, Leaves, Leaves-after, Steady, bind-Steady}
use lemon.Resolver.Lookups.{
  Usable, judge_base, lookup_base_name, lookup_base_type, judge_underlying, judge_import,
  lookup_named, lookup_unwound, lookup_type, is_null, require_type, resolve_return_type,
}
use lemon.Resolver.Types.{unwind_type}
use lemon.SymTable
use lemon.SymTable.{
  Symbol, Table, TableTag, native, module_symbol, import_symbol, field, parameter, label, dangling,
  lookup_at, sym_table_lookup,
}

judge_base-Steady : (t : ℕ) (key : Key) (v : Symbol) → Steady (judge_base t key v)
unfolding judge_base
judge_base-Steady t key (native bytes) = pure-Steady _
judge_base-Steady t key (SymTable.udt table bytes line referenced public) =
    bind-Steady (write_symbol-Steady t key _) (λ _. pure-Steady _)
judge_base-Steady t key (module_symbol table referenced) = pure-Steady _
judge_base-Steady t key (import_symbol table line referenced) = pure-Steady _
judge_base-Steady t key (SymTable.function table signature line referenced) = pure-Steady _
judge_base-Steady t key (SymTable.method table signature line referenced) = pure-Steady _
judge_base-Steady t key (SymTable.variable typ line referenced public) = pure-Steady _
judge_base-Steady t key (field typ line referenced public) = pure-Steady _
judge_base-Steady t key (parameter typ line referenced) = pure-Steady _
judge_base-Steady t key (label line referenced) = pure-Steady _

lookup_base_type-Steady : (node : TypeNode) → Steady (lookup_base_type node)
unfolding lookup_base_type lookup_base_name
lookup_base_type-Steady (base name line) =
    bind-Steady (lookup_symbol-Steady name line)
      (λ symref. judge_base-Steady symref.table symref.key symref.value)
lookup_base_type-Steady (named name reference line) = stop-Steady
lookup_base_type-Steady (pointer reference line) = stop-Steady
lookup_base_type-Steady (array element len line) = stop-Steady

judge_underlying-Steady : (symbol : Symbol) (u : Usable) → Steady (judge_underlying symbol u)
unfolding judge_underlying
judge_underlying-Steady symbol none = pure-Steady _
judge_underlying-Steady symbol (some (native bytes)) = pure-Steady _
judge_underlying-Steady symbol (some (SymTable.udt table bytes line referenced true)) =
    pure-Steady _
judge_underlying-Steady symbol (some (SymTable.udt table bytes line referenced false)) =
    pure-Steady _
judge_underlying-Steady symbol (some (module_symbol table referenced)) = stop-Steady
judge_underlying-Steady symbol (some (import_symbol table line referenced)) = stop-Steady
judge_underlying-Steady symbol (some (SymTable.function table signature line referenced)) =
    stop-Steady
judge_underlying-Steady symbol (some (SymTable.method table signature line referenced)) =
    stop-Steady
judge_underlying-Steady symbol (some (SymTable.variable typ line referenced public)) = stop-Steady
judge_underlying-Steady symbol (some (field typ line referenced public)) = stop-Steady
judge_underlying-Steady symbol (some (parameter typ line referenced)) = stop-Steady
judge_underlying-Steady symbol (some (label line referenced)) = stop-Steady

-- where the table is not one of the store, the lookup fails its assertion
astray :
    (reference : TypeNode) (s : Frame)
    → get_elem? s.store s.top ≡ none
    → lookup_base_type reference s ≡ stopped
unfolding lookup_base_type lookup_base_name lookup_symbol look looked_up lookup_at sym_table_lookup
astray (base name line) s e = elim (Bool-cases (nonzero line)) [
  | inl h ↦ rw (h, e) refl
  | inr h ↦ rw h refl
]
astray (named name reference line) s e = refl
astray (pointer reference line) s e = refl
astray (array element len line) s e = refl

-- after the temporary stack the old one is restored
module _ (s : Frame) (sound : Sound s.store) (t : ℕ) where
  abbrev away : Frame
  away = record s { top = t; history = s.top ∷ s.history }

  returned_home :
      (r : Result Usable)
      → Leaves away r
      → Leaves s (bind r (λ usable. unload_temporary_stack >> pure usable))
  unfolding unload_temporary_stack restored
  returned_home (ok usable s') l =
      rw l.history (record { sound = l.sound; top = refl; history = refl; tables = l.tables })
  returned_home thrown l = tt
  returned_home stopped l = tt
  returned_home out_of_fuel l = l

  behind :
      (symbol : Symbol) (range : InRange away) (r : Result Usable)
      → Leaves away r
      → Leaves s (
          bind r (λ underlying.
            judge_underlying symbol underlying >>= λ usable. unload_temporary_stack >> pure usable))
  behind symbol range (ok u s') l = returned_home (judge_underlying symbol u s') (
      Leaves-after away s' (judge_underlying symbol u s') l
        ((judge_underlying-Steady symbol u).run s' l.sound (Kept-InRange away s' l range)))
  behind symbol range thrown l = tt
  behind symbol range stopped l = tt
  behind symbol range out_of_fuel l = l

-- what `LookupNamedType` does once the import is marked
abbrev visit : Option ℕ → Symbol → TypeNode → Action Usable
visit table symbol reference =
    load_temporary_stack table
    >> (lookup_base_type reference >>= λ underlying.
        judge_underlying symbol underlying >>= λ usable. unload_temporary_stack >> pure usable)

visit-Steady :
    (table : Option ℕ) (symbol : Symbol) (reference : TypeNode)
    → Steady (visit table symbol reference)
unfolding load_temporary_stack
visit-Steady none symbol reference = record { run = λ s sound range. tt }
visit-Steady (some t) symbol reference = record {
  run = λ s sound range. elim (Option-cases (get_elem? s.store t)) [
    | inl e ↦ rw (astray reference (away s sound t) e) tt
    | inr (table, e) ↦
        behind s sound t symbol (table, e) (lookup_base_type reference (away s sound t))
          ((lookup_base_type-Steady reference).run (away s sound t) sound (table, e))
  ];
}

judge_import-Steady :
    (t : ℕ) (key : Key) (reference : TypeNode) (v : Symbol)
    → Steady (judge_import t key reference v)
unfolding judge_import
judge_import-Steady t key reference (import_symbol table line referenced) =
    bind-Steady (write_symbol-Steady t key _)
      (λ _. visit-Steady table (import_symbol table line true) reference)
judge_import-Steady t key reference (native bytes) = pure-Steady _
judge_import-Steady t key reference (SymTable.udt table bytes line referenced public) =
    pure-Steady _
judge_import-Steady t key reference (module_symbol table referenced) = pure-Steady _
judge_import-Steady t key reference (SymTable.function table signature line referenced) =
    pure-Steady _
judge_import-Steady t key reference (SymTable.method table signature line referenced) =
    pure-Steady _
judge_import-Steady t key reference (SymTable.variable typ line referenced public) = pure-Steady _
judge_import-Steady t key reference (field typ line referenced public) = pure-Steady _
judge_import-Steady t key reference (parameter typ line referenced) = pure-Steady _
judge_import-Steady t key reference (label line referenced) = pure-Steady _

lookup_unwound-Steady : (node : TypeNode) → Steady (lookup_unwound node)
unfolding lookup_unwound lookup_named
lookup_unwound-Steady (base name line) = lookup_base_type-Steady (base name line)
lookup_unwound-Steady (named name reference line) =
    bind-Steady (lookup_symbol-Steady name line)
      (λ symref. judge_import-Steady symref.table symref.key reference symref.value)
lookup_unwound-Steady (pointer reference line) = stop-Steady
lookup_unwound-Steady (array element len line) = stop-Steady

pub lookup_type-Steady : (node : TypeNode) → Steady (lookup_type node)
unfolding lookup_type
lookup_type-Steady node = lookup_unwound-Steady (unwind_type node)

pub require_type-Steady : (node : TypeNode) → Steady (require_type node)
unfolding require_type
require_type-Steady node =
    bind-Steady (lookup_type-Steady node) (λ usable. raise_if-Steady (is_null usable))

pub resolve_return_type-Steady : (ret : Option TypeNode) → Steady (resolve_return_type ret)
unfolding resolve_return_type
resolve_return_type-Steady none = pure-Steady tt
resolve_return_type-Steady (some node) = require_type-Steady node
