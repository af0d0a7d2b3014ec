-- ===== src/Resolver/Lookups.antt =====
-- The types that phase 2 of src/resolver.c looks up, from `LookupType` to `ResolveReturnType`.
use lemon.Base.{ℕ, Bool, true, false, Option, none, some, if◌then◌else◌}
use lemon.Map.{Key}
use lemon.Parser.Tree.{TypeNode, base, named, pointer, array}
use lemon.Resolver.Frames.{
  Action, Done, pure, stop, ◌>>=◌, ◌>>◌, raise_if, lookup_symbol, write_symbol,
  load_temporary_stack, unload_temporary_stack,
}
use lemon.Resolver.Types.{unwind_type}
use lemon.SymTable
use lemon.SymTable.{
  Symbol, native, module_symbol, import_symbol, field, parameter, TableTag, table_module, table_udt,
  table_function, table_method,
}

-- a type that can be used, or NULL behind a report
abbrev pub Usable : Type 0
Usable = Option Symbol

-- the switch of `LookupBaseType`
unfoldable pub judge_base : ℕ → Key → Symbol → Action Usable
judge_base t key (SymTable.udt table bytes line referenced public) =
    write_symbol t key (SymTable.udt table bytes line true public)
    >> pure (some (SymTable.udt table bytes line true public))
judge_base t key (native bytes) = pure (some (native bytes))
judge_base t key _ = pure none

unfoldable pub lookup_base_name : Key → ℕ → Action Usable
lookup_base_name key line = do
  symref ← lookup_symbol key line
  judge_base symref.table symref.key symref.value

-- `LookupBaseType`, with its assertion on the tag
unfoldable pub lookup_base_type : TypeNode → Action Usable
lookup_base_type (base name line) = lookup_base_name name line
lookup_base_type (named name reference line) = stop
lookup_base_type (pointer reference line) = stop
lookup_base_type (array element len line) = stop

-- what `LookupNamedType` returns for what it finds in the other module
unfoldable pub judge_underlying : Symbol → Usable → Action Usable
judge_underlying symbol none = pure none
judge_underlying symbol (some (native bytes)) = pure none
judge_underlying symbol (some (SymTable.udt table bytes line referenced public)) =
    if public then pure (some symbol) else pure none
judge_underlying symbol (some _) = stop

-- The rest of `LookupNamedType`, on the symbol of the module's name. Of the last case only the value is told:
-- its `goto fail` enters the scope of the variable that `push_stack` declares past its
-- initialisation, so that on the way out `check_pair` reads it unset, and may fail its assertion.
unfoldable pub judge_import : ℕ → Key → TypeNode → Symbol → Action Usable
judge_import t key reference (import_symbol table line referenced) = do
  write_symbol t key (import_symbol table line true)
  load_temporary_stack table
  underlying ← lookup_base_type reference
  usable ← judge_underlying (import_symbol table line true) underlying
  unload_temporary_stack
  pure usable
judge_import t key reference _ = pure none

unfoldable pub lookup_named : Key → TypeNode → ℕ → Action Usable
lookup_named key reference line = do
  symref ← lookup_symbol key line
  judge_import symref.table symref.key reference symref.value

-- `LookupNamedType` and the switch of `LookupType`
unfoldable pub lookup_unwound : TypeNode → Action Usable
lookup_unwound (base name line) = lookup_base_type (base name line)
lookup_unwound (named name reference line) = lookup_named name reference line
lookup_unwound (pointer reference line) = stop
lookup_unwound (array element len line) = stop

-- `LookupType`
unfoldable pub lookup_type : TypeNode → Action Usable
lookup_type node = lookup_unwound (unwind_type node)

abbrev pub is_null : Usable → Bool
is_null none = true
is_null (some symbol) = false

-- a type that must be usable
unfoldable pub require_type : TypeNode → Action Done
require_type node = do usable ← lookup_type node; raise_if (is_null usable)

-- `ResolveReturnType`, and `ResolveRecvType` for a type that is there
unfoldable pub resolve_return_type : Option TypeNode → Action Done
resolve_return_type none = pure tt
resolve_return_type (some node) = require_type node

-- all that these lookups compute with
unfoldable pub running : Unit {0}
unfolding judge_base lookup_base_name lookup_base_type judge_underlying judge_import lookup_named
    lookup_unwound lookup_type require_type resolve_return_type
running = tt
