-- ===== src/Resolver/Symbols.antt =====
-- Phase 2 of src/resolver.c: the declarations of each module in the order of the list, and the names that they
-- introduce.
--
-- `snprintf` of the C library is an argument.
use lemon.Base.{
  ℕ, zero, suc, ◌+◌, ◌%◌, ◌^◌, Bool, true, false, Option, none, some, List, [], ◌∷◌, get_elem?,
  length, if◌then◌else◌,
}
use lemon.Map.{Key}
use lemon.Parser.Tree.{
  CString, TypeNode, Member, Param, Decl, udt, function, method, variable, Stmt, block, Fiats,
  no_fiats, decl_then, stmt_then, Import, Module,
}
use lemon.Resolver.{Vertex}
use lemon.Resolver.Frames
use lemon.Resolver.Frames.{
  Frame, out_of_fuel, Action, Done, pure, stop, ◌>>=◌, ◌>>◌, assert, raise_if, lift, top_of,
  lookup_symbol, insert_symbol, write_symbol, check_tag, push_sym_table, pop_sym_table,
  load_temporary_stack, unload_temporary_stack, nonzero,
}
use lemon.Resolver.Types
use lemon.Resolver.Types.{
  unwind_type, string_from_type, create_func_signature, create_method_signature,
}
use lemon.Str.{Snprintf}
use lemon.SymTable
use lemon.SymTable.{
  Symbol, native, module_symbol, import_symbol, field, parameter, TableTag, table_module, table_udt,
  table_function, table_method,
}
use lemon.Resolver.Lookups
use lemon.Resolver.Lookups.{Usable, lookup_type, is_null, require_type, resolve_return_type}

abbrev pub is_module_table : TableTag → Bool
is_module_table table_module = true
is_module_table _ = false

-- `assert(self->top->tag == TABLE_MODULE)`
unfoldable pub assert_module : Action Done
assert_module = do top ← top_of; check_tag top is_module_table

-- one import of `ResolveImports`
unfoldable pub import_module : ℕ → Import → Symbol → Action Done
import_module t node (module_symbol table referenced) = do
  write_symbol t node.alias (module_symbol table true)
  insert_symbol node.alias (import_symbol table node.line false)
import_module t node _ = stop

unfoldable pub each_import : List Import → Action Done
each_import [] = pure tt
each_import (node ∷ imports) = do
  symref ← lookup_symbol node.alias node.line
  import_module symref.table node symref.value
  each_import imports

-- `ResolveImports`
unfoldable pub resolve_imports : List Import → Action Done
resolve_imports imports = do assert_module; each_import imports

-- `CountDeclsWithinFiat`
unfoldable pub count_decls_within_fiat : Fiats → ℕ
count_decls_within_fiat no_fiats = 0
count_decls_within_fiat (decl_then d fiats) = count_decls_within_fiat fiats + 1
count_decls_within_fiat (stmt_then s fiats) = count_decls_within_fiat fiats

-- the statements of the block of a function, of which the parser makes no other statement
unfoldable pub fiats_of : Stmt → Option Fiats
fiats_of (block fiats line) = some fiats
fiats_of _ = none

-- `ResolveBlock`, which only asserts that it has a block
unfoldable pub resolve_block : Stmt → Action Done
resolve_block body = do fiats ← lift (fiats_of body); pure tt

-- `symref->udt.table = self->top` and its like for the symbol that the prototype inserted
unfoldable pub with_table : ℕ → Symbol → Option Symbol
with_table top (SymTable.udt table bytes line referenced public) =
    some (SymTable.udt (some top) bytes line referenced public)
with_table top (SymTable.function table signature line referenced) =
    some (SymTable.function (some top) signature line referenced)
with_table top (SymTable.method table signature line referenced) =
    some (SymTable.method (some top) signature line referenced)
with_table top _ = none

-- the table of a declaration, which its symbol then points to
unfoldable pub open_scope : Key → ℕ → TableTag → ℕ → Action Done
open_scope name line tag capacity = do
  symref ← lookup_symbol name line
  push_sym_table tag capacity
  top ← top_of
  value ← lift (with_table top symref.value)
  write_symbol symref.table symref.key value

-- `ResolveVariable`
unfoldable pub resolve_variable : CString → TypeNode → ℕ → Action Done
resolve_variable name vartype line = do symref ← lookup_symbol name line; require_type vartype

unfoldable pub each_decl : (Decl → Action Done) → List Decl → Action Done
each_decl resolve [] = pure tt
each_decl resolve (node ∷ declarations) = do resolve node; each_decl resolve declarations

module _ (snprintf : Snprintf) where
  -- the loop of `ResolveMembers`, with whether a type failed
  unfoldable pub member_loop : List Member → Bool → Action Bool
  member_loop [] failed = pure failed
  member_loop (node ∷ members) failed = do
    typ ← lift (string_from_type snprintf node.typ)
    insert_symbol node.name (field typ node.line false node.public)
    usable ← lookup_type node.typ
    member_loop members (if is_null usable then true else failed)

  -- `ResolveMembers`
  unfoldable pub resolve_members : List Member → Action Done
  resolve_members members = do
    assert (nonzero (length members))
    failed ← member_loop members false
    raise_if failed

  -- the loop of `ResolveParameters`, with whether a type failed
  unfoldable pub param_loop : List Param → Bool → Action Bool
  param_loop [] failed = pure failed
  param_loop (node ∷ params) failed = do
    typ ← lift (string_from_type snprintf node.typ)
    insert_symbol node.name (parameter typ node.line false)
    usable ← lookup_type node.typ
    param_loop params (if is_null usable then true else failed)

  -- `ResolveParameters`
  unfoldable pub resolve_parameters : List Param → Action Done
  resolve_parameters params = do failed ← param_loop params false; raise_if failed

  -- `ResolveUDTPrototype`
  unfoldable pub resolve_udt_prototype : CString → Bool → ℕ → Action Done
  resolve_udt_prototype name public line =
      insert_symbol name (SymTable.udt none 0 line false public)

  -- `ResolveFunctionPrototype`
  unfoldable pub resolve_function_prototype :
      CString → Option TypeNode → List Param → ℕ → Action Done
  resolve_function_prototype name ret params line = do
    signature ← lift (create_func_signature snprintf params ret)
    insert_symbol name (SymTable.function none signature line false)

  -- `ResolveMethodPrototype`
  unfoldable pub resolve_method_prototype :
      CString → Option TypeNode → TypeNode → List Param → ℕ → Action Done
  resolve_method_prototype name ret recv params line = do
    signature ← lift (create_method_signature snprintf params ret recv)
    insert_symbol name (SymTable.method none signature line false)

  -- `ResolveVariablePrototype`
  unfoldable pub resolve_variable_prototype : CString → TypeNode → Bool → ℕ → Action Done
  resolve_variable_prototype name vartype public line = do
    typ ← lift (string_from_type snprintf vartype)
    insert_symbol name (SymTable.variable typ line false public)

  -- the first column of the jump table of `ResolveDeclarations`
  unfoldable pub resolve_prototype : Decl → Action Done
  resolve_prototype (udt name members public line) = resolve_udt_prototype name public line
  resolve_prototype (function name ret body params public line) =
      resolve_function_prototype name ret params line
  resolve_prototype (method name ret recv body params public line) =
      resolve_method_prototype name ret recv params line
  resolve_prototype (variable name vartype value mutable public line) =
      resolve_variable_prototype name vartype public line

  -- `ResolveUDT`
  unfoldable pub resolve_udt : CString → List Member → ℕ → Action Done
  resolve_udt name members line = do
    open_scope name line table_udt (length members)
    resolve_members members
    pop_sym_table

  -- `ResolveFunction`
  unfoldable pub resolve_function : CString → Option TypeNode → Stmt → List Param → ℕ → Action Done
  resolve_function name ret body params line = do
    fiats ← lift (fiats_of body)
    open_scope name line table_function ((length params + count_decls_within_fiat fiats) % 2 ^ 64)
    resolve_parameters params
    resolve_return_type ret
    resolve_block body
    pop_sym_table

  -- `ResolveMethod`
  unfoldable pub resolve_method :
      CString → Option TypeNode → TypeNode → Stmt → List Param → ℕ → Action Done
  resolve_method name ret recv body params line = do
    fiats ← lift (fiats_of body)
    open_scope name line table_method ((length params + count_decls_within_fiat fiats) % 2 ^ 64)
    resolve_parameters params
    require_type recv
    resolve_return_type ret
    resolve_block body
    pop_sym_table

  -- the second column of the jump table
  unfoldable pub resolve_definition : Decl → Action Done
  resolve_definition (udt name members public line) = resolve_udt name members line
  resolve_definition (function name ret body params public line) =
      resolve_function name ret body params line
  resolve_definition (method name ret recv body params public line) =
      resolve_method name ret recv body params line
  resolve_definition (variable name vartype value mutable public line) =
      resolve_variable name vartype line

  -- `ResolveDeclarations`
  unfoldable pub resolve_declarations : List Decl → Action Done
  resolve_declarations declarations = do
    assert_module
    each_decl resolve_prototype declarations
    each_decl resolve_definition declarations

  -- `ResolveModule`
  unfoldable pub resolve_module : Module → Action Done
  resolve_module node = do
    outer ← top_of
    insert_symbol node.alias (module_symbol none false)
    push_sym_table table_module ((length node.imports + length node.declarations) % 2 ^ 64)
    top ← top_of
    write_symbol outer node.alias (module_symbol (some top) false)
    resolve_imports node.imports
    resolve_declarations node.declarations
    pop_sym_table

  -- `current.top = net->global` with `ResolveModule`
  unfoldable pub from_global : ℕ → Module → Action Done
  from_global global node s = resolve_module node (record s { top = global })

  -- one round of the loop of `ResolveSymbols`, and those behind it; a pointer to no module stops
  unfoldable pub resolve_node : (Option ℕ → Action Done) → ℕ → Option Vertex → Action Done
  resolve_node later global none = stop
  resolve_node later global (some v) = do from_global global v.ast; later v.next

  -- the loop of `ResolveSymbols` along the list, on fuel
  unfoldable pub resolve_from : ℕ → List Vertex → ℕ → Option ℕ → Action Done
  resolve_from fuel modules global none = pure tt
  resolve_from zero modules global (some i) = λ s. out_of_fuel
  resolve_from (suc fuel) modules global (some i) =
      resolve_node (resolve_from fuel modules global) global (get_elem? modules i)

-- all that phase 2 computes with
unfoldable pub running : Unit {0}
unfolding Lookups.running assert_module import_module each_import resolve_imports
    count_decls_within_fiat fiats_of resolve_block with_table open_scope resolve_variable each_decl
    member_loop resolve_members param_loop resolve_parameters resolve_udt_prototype
    resolve_function_prototype resolve_method_prototype resolve_variable_prototype resolve_prototype
    resolve_udt resolve_function resolve_method resolve_definition resolve_declarations
    resolve_module from_global resolve_node resolve_from Frames.running Types.running
running = tt
