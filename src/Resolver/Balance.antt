-- ===== src/Resolver/Balance.antt =====
-- Phase 2 of src/resolver.c keeps the stack of tables: every push is paired with a pop.
use lemon.Base.{ℕ, Bool, true, false, List, [], ◌∷◌, if◌then◌else◌}
use lemon.Map.{Key}
use lemon.Parser.Tree.{Member, Param, Decl, udt, function, method, variable, Stmt, Import, Module}
use lemon.Resolver.Frames.{Frame, Action, Done}
use lemon.Resolver.Primitives.{
  pure-Steady, stop-Steady, top_of-Steady, assert-Steady, raise_if-Steady, lift-Steady,
  lookup_symbol-Steady, check_tag-Steady, insert_symbol-Steady, write_symbol-Steady, push-Opening,
  pop-Closing,
}
use lemon.Resolver.Steady.{
  Sound, InRange, Leaves, Steady, Opening, bind-Steady, bind-Opening, inside-Opening,
  enclosed-Steady, bind-Closing,
}
use lemon.Resolver.Symbols.{
  assert_module, is_module_table, import_module, each_import, resolve_imports, member_loop,
  resolve_members, param_loop, resolve_parameters, fiats_of, resolve_block, with_table, open_scope,
  resolve_prototype, resolve_udt_prototype, resolve_function_prototype, resolve_method_prototype,
  resolve_variable_prototype, resolve_udt, resolve_function, resolve_method, resolve_variable,
  resolve_definition, each_decl, resolve_declarations, resolve_module,
}
use lemon.Str.{Snprintf}
use lemon.SymTable
use lemon.SymTable.{
  Symbol, Table, TableTag, native, module_symbol, import_symbol, field, parameter, label, dangling,
  lookup_at, sym_table_lookup,
}
use lemon.Resolver.Homes.{lookup_type-Steady, require_type-Steady, resolve_return_type-Steady}
use lemon.Resolver.Lookups.{is_null}

assert_module-Steady : Steady assert_module
unfolding assert_module
assert_module-Steady = bind-Steady top_of-Steady (λ t. check_tag-Steady t is_module_table)

import_module-Steady : (t : ℕ) (node : Import) (v : Symbol) → Steady (import_module t node v)
unfolding import_module
import_module-Steady t node (module_symbol table referenced) =
    bind-Steady (write_symbol-Steady t node.alias _) (λ _. insert_symbol-Steady node.alias _)
import_module-Steady t node (native bytes) = stop-Steady
import_module-Steady t node (import_symbol table line referenced) = stop-Steady
import_module-Steady t node (SymTable.udt table bytes line referenced public) = stop-Steady
import_module-Steady t node (SymTable.function table signature line referenced) = stop-Steady
import_module-Steady t node (SymTable.method table signature line referenced) = stop-Steady
import_module-Steady t node (SymTable.variable typ line referenced public) = stop-Steady
import_module-Steady t node (field typ line referenced public) = stop-Steady
import_module-Steady t node (parameter typ line referenced) = stop-Steady
import_module-Steady t node (label line referenced) = stop-Steady

each_import-Steady : (imports : List Import) → Steady (each_import imports)
unfolding each_import
each_import-Steady [] = pure-Steady tt
each_import-Steady (node ∷ imports) =
    bind-Steady (lookup_symbol-Steady node.alias node.line) (λ symref.
      bind-Steady (import_module-Steady symref.table node symref.value)
        (λ _. each_import-Steady imports))

resolve_imports-Steady : (imports : List Import) → Steady (resolve_imports imports)
unfolding resolve_imports
resolve_imports-Steady imports = bind-Steady assert_module-Steady (λ _. each_import-Steady imports)

resolve_block-Steady : (body : Stmt) → Steady (resolve_block body)
unfolding resolve_block
resolve_block-Steady body = bind-Steady (lift-Steady (fiats_of body)) (λ _. pure-Steady tt)

open_scope-Opening :
    (name : Key) (line : ℕ) (tag : TableTag) (capacity : ℕ)
    → Opening (open_scope name line tag capacity)
unfolding open_scope
open_scope-Opening name line tag capacity = bind-Opening (lookup_symbol-Steady name line) (λ symref.
    inside-Opening (push-Opening tag capacity) (λ _. bind-Steady top_of-Steady (λ top.
      bind-Steady (lift-Steady (with_table top symref.value))
        (λ value. write_symbol-Steady symref.table symref.key value))))

module _ (snprintf : Snprintf) where
  member_loop-Steady :
      (members : List Member) (failed : Bool) → Steady (member_loop snprintf members failed)
  unfolding member_loop
  member_loop-Steady [] failed = pure-Steady failed
  member_loop-Steady (node ∷ members) failed = bind-Steady (lift-Steady _) (λ typ.
      bind-Steady (insert_symbol-Steady node.name _) (λ _.
        bind-Steady (lookup_type-Steady node.typ)
          (λ usable. member_loop-Steady members (if is_null usable then true else failed))))

  resolve_members-Steady : (members : List Member) → Steady (resolve_members snprintf members)
  unfolding resolve_members
  resolve_members-Steady members =
      bind-Steady (assert-Steady _)
        (λ _. bind-Steady (member_loop-Steady members false) (λ failed. raise_if-Steady failed))

  param_loop-Steady :
      (params : List Param) (failed : Bool) → Steady (param_loop snprintf params failed)
  unfolding param_loop
  param_loop-Steady [] failed = pure-Steady failed
  param_loop-Steady (node ∷ params) failed = bind-Steady (lift-Steady _) (λ typ.
      bind-Steady (insert_symbol-Steady node.name _) (λ _.
        bind-Steady (lookup_type-Steady node.typ)
          (λ usable. param_loop-Steady params (if is_null usable then true else failed))))

  resolve_parameters-Steady : (params : List Param) → Steady (resolve_parameters snprintf params)
  unfolding resolve_parameters
  resolve_parameters-Steady params =
      bind-Steady (param_loop-Steady params false) (λ failed. raise_if-Steady failed)

  resolve_prototype-Steady : (node : Decl) → Steady (resolve_prototype snprintf node)
  unfolding resolve_prototype resolve_udt_prototype resolve_function_prototype
      resolve_method_prototype resolve_variable_prototype
  resolve_prototype-Steady (udt name members public line) = insert_symbol-Steady name _
  resolve_prototype-Steady (function name ret body params public line) =
      bind-Steady (lift-Steady _) (λ signature. insert_symbol-Steady name _)
  resolve_prototype-Steady (method name ret recv body params public line) =
      bind-Steady (lift-Steady _) (λ signature. insert_symbol-Steady name _)
  resolve_prototype-Steady (variable name vartype value mutable public line) =
      bind-Steady (lift-Steady _) (λ typ. insert_symbol-Steady name _)

  resolve_definition-Steady : (node : Decl) → Steady (resolve_definition snprintf node)
  unfolding resolve_definition resolve_udt resolve_function resolve_method resolve_variable
  resolve_definition-Steady (udt name members public line) =
      enclosed-Steady (open_scope-Opening name line _ _)
        (λ _. bind-Closing (resolve_members-Steady members) (λ _. pop-Closing))
  resolve_definition-Steady (function name ret body params public line) =
      bind-Steady (lift-Steady (fiats_of body)) (λ fiats.
        enclosed-Steady (open_scope-Opening name line _ _) (λ _.
          bind-Closing (resolve_parameters-Steady params) (λ _.
            bind-Closing (resolve_return_type-Steady ret)
              (λ _. bind-Closing (resolve_block-Steady body) (λ _. pop-Closing)))))
  resolve_definition-Steady (method name ret recv body params public line) =
      bind-Steady (lift-Steady (fiats_of body)) (λ fiats.
        enclosed-Steady (open_scope-Opening name line _ _) (λ _.
          bind-Closing (resolve_parameters-Steady params) (λ _.
            bind-Closing (require_type-Steady recv) (λ _.
              bind-Closing (resolve_return_type-Steady ret)
                (λ _. bind-Closing (resolve_block-Steady body) (λ _. pop-Closing))))))
  resolve_definition-Steady (variable name vartype value mutable public line) =
      bind-Steady (lookup_symbol-Steady name line) (λ symref. require_type-Steady vartype)

  each_decl-Steady :
      (resolve : Decl → Action Done)
      → ((node : Decl) → Steady (resolve node))
      → (declarations : List Decl) → Steady (each_decl resolve declarations)
  unfolding each_decl
  each_decl-Steady resolve steady [] = pure-Steady tt
  each_decl-Steady resolve steady (node ∷ declarations) =
      bind-Steady (steady node) (λ _. each_decl-Steady resolve steady declarations)

  resolve_declarations-Steady :
      (declarations : List Decl) → Steady (resolve_declarations snprintf declarations)
  unfolding resolve_declarations
  resolve_declarations-Steady declarations = bind-Steady assert_module-Steady (λ _.
      bind-Steady
        (each_decl-Steady (resolve_prototype snprintf) resolve_prototype-Steady declarations)
        (λ _.
          each_decl-Steady (resolve_definition snprintf) resolve_definition-Steady declarations))

  pub resolve_module-Steady : (node : Module) → Steady (resolve_module snprintf node)
  unfolding resolve_module
  resolve_module-Steady node = bind-Steady top_of-Steady (λ outer.
      bind-Steady (insert_symbol-Steady node.alias _) (λ _. enclosed-Steady (push-Opening _ _) (λ _.
        bind-Closing top_of-Steady (λ top.
          bind-Closing (write_symbol-Steady outer node.alias _) (λ _.
            bind-Closing (resolve_imports-Steady node.imports) (λ _.
              bind-Closing (resolve_declarations-Steady node.declarations) (λ _. pop-Closing)))))))

-- On a well-formed tree of tables, within the capacities of the code, with the table on top in it: where
-- `ResolveModule` returns, the same table is on top and the history is the same, every table that was
-- there has its tag and its parent, and the tree with all the new scopes is well formed and within the
-- capacities.
pub resolve_module-Leaves :
    (snprintf : Snprintf) (node : Module) (s : Frame)
    → Sound s.store
    → InRange s
    → Leaves s (resolve_module snprintf node s)
resolve_module-Leaves snprintf node s sound range =
    (resolve_module-Steady snprintf node).run s sound range
