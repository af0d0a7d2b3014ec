-- ===== src/Resolver/Frames.antt =====
-- The frame of src/resolver.c, with the operations on its tables: what phase 2 does to them.
--
-- A pointer to a symbol is the table that has it with its name. The `entry` and `table` members of the
-- syntax tree, which the resolver writes and does not read, are left out, and so are the messages.
use lemon.Base.{
  ℕ, suc, Bool, true, false, Option, none, some, List, [], ◌∷◌, get_elem?, set, ◌==◌, if◌then◌else◌,
}
use lemon.Map.{Key, map_set}
use lemon.SymTable.{
  Symbol, native, module_symbol, import_symbol, function, method, udt, variable, field, parameter,
  label, TableTag, table_global, Table, Store, Entered, already, entered, Lookup, found, missing,
  dangling, exhausted, sym_table_spawn, sym_table_insert, sym_table_lookup, is_global,
}
use lemon.SymTable

-- `struct frame`, less the tree, with the store of the tables; the latest of the history stands first
pub record Frame : Type 0 where
  pub top : ℕ
  pub history : List ℕ
  pub store : Store

-- how a function of phase 2 ends: it returns, throws `XXSYMBOL`, or fails an assertion; the walk along the
-- list may run out of fuel
pub data Result {ℓ} (A : Type ℓ) : Type ℓ where
  ok : A → Frame → Result A
  thrown stopped out_of_fuel : Result A

abbrev pub Action {ℓ} : Type ℓ → Type ℓ
Action A = Frame → Result A

abbrev pub Done : Type 0
Done = Unit {0}

module _ {ℓ} {A : Type ℓ} where
  abbrev pub pure : A → Action A
  pure a s = ok a s

  abbrev pub throw : Action A
  throw s = thrown

  abbrev pub stop : Action A
  stop s = stopped

module _ {ℓ κ} {A : Type ℓ} {B : Type κ} where
  abbrev pub bind : Result A → (A → Action B) → Result B
  bind (ok a s) f = f a s
  bind thrown f = thrown
  bind stopped f = stopped
  bind out_of_fuel f = out_of_fuel

  infixl 5 ◌>>=◌ ◌>>◌
  abbrev pub ◌>>=◌ : Action A → (A → Action B) → Action B
  ◌>>=◌ m f s = bind (m s) f

  abbrev pub ◌>>◌ : Action A → Action B → Action B
  ◌>>◌ m k = m >>= λ _. k

abbrev pub assert : Bool → Action Done
assert true = pure tt
assert false = stop

abbrev pub raise_if : Bool → Action Done
raise_if true = throw
raise_if false = pure tt

-- what a computation of text comes to
abbrev pub lift {ℓ} : {A : Type ℓ} → Option A → Action A
lift none = stop
lift (some a) = pure a

unfoldable pub top_of : Action ℕ
top_of s = ok s.top s

-- a pointer to a symbol, with what it shows
pub record Ref : Type 0 where
  pub table : ℕ
  pub key : Key
  pub value : Symbol

abbrev pub nonzero : ℕ → Bool
nonzero n = if n == 0 then false else true

unfoldable pub looked_up : Key → Lookup → Action Ref
looked_up key (found t value) = pure (record { table = t; key = key; value = value })
looked_up key missing = throw
looked_up key dangling = stop
looked_up key exhausted = stop

unfoldable pub look : Key → Action Ref
look key s = looked_up key (sym_table_lookup (suc s.top) s.store key s.top) s

-- `LookupSymbol`
unfoldable pub lookup_symbol : Key → ℕ → Action Ref
lookup_symbol key line = do assert (nonzero line); look key

-- `GetSymbolLine`; a parameter is its failed assertion
unfoldable pub get_symbol_line : Symbol → Option ℕ
get_symbol_line (native bytes) = some 0
get_symbol_line (module_symbol table referenced) = some 0
get_symbol_line (import_symbol table line referenced) = some line
get_symbol_line (function table signature line referenced) = some line
get_symbol_line (method table signature line referenced) = some line
get_symbol_line (udt table bytes line referenced public) = some line
get_symbol_line (variable typ line referenced public) = some line
get_symbol_line (field typ line referenced public) = some line
get_symbol_line (parameter typ line referenced) = none
get_symbol_line (label line referenced) = some line

abbrev pub tag_at : Option Table → (TableTag → Bool) → Action Done
tag_at none test = stop
tag_at (some table) test = assert (test table.tag)

-- a test of the tag of a table
unfoldable pub check_tag : ℕ → (TableTag → Bool) → Action Done
check_tag t test s = tag_at (get_elem? s.store t) test s

abbrev pub not_global : TableTag → Bool
not_global tag = if is_global tag then false else true

-- `ReportRedeclaration`
unfoldable pub report_redeclaration : Key → Symbol → Action Done
report_redeclaration key value = do
  symref ← look key
  top ← top_of
  assert (symref.table == top)
  check_tag symref.table not_global
  curr_line ← lift (get_symbol_line value)
  prev_line ← lift (get_symbol_line symref.value)
  assert (nonzero prev_line)

-- the report of a name that is there, and the exception behind it
unfoldable pub refuse : Key → Symbol → Action Done
refuse key value = do report_redeclaration key value; throw

unfoldable pub after_insert : Key → Symbol → Entered → Action Done
after_insert key value SymTable.stopped = stop
after_insert key value (already store) = λ s. refuse key value (record s { store = store })
after_insert key value (entered slot store) = λ s. ok tt (record s { store = store })

-- `InsertSymbol`; the pointer that it returns is to `key` in the table on top
unfoldable pub insert_symbol : Key → Symbol → Action Done
insert_symbol key value s = after_insert key value (sym_table_insert s.store s.top key value) s

unfoldable pub written : Store → ℕ → Key → Symbol → Table → Store
written store t key value table =
    set store t (record table { entries = (map_set table.entries key value).1 })

unfoldable pub write_at : ℕ → Key → Symbol → Option Table → Action Done
write_at t key value none = stop
write_at t key value (some table) =
    λ s. ok tt (record s { store = written s.store t key value table })

-- a write through a pointer to a symbol
unfoldable pub write_symbol : ℕ → Key → Symbol → Action Done
write_symbol t key value s = write_at t key value (get_elem? s.store t) s

unfoldable pub pushed : Option (Store × ℕ) → Action Done
pushed none = stop
pushed (some (store, t)) = λ s. ok tt (record s { store = store; top = t })

-- `PushSymTable`
unfoldable pub push_sym_table : TableTag → ℕ → Action Done
push_sym_table tag cap s = pushed (sym_table_spawn s.store (some s.top) tag cap) s

abbrev pub parent_of : Option Table → Option ℕ
parent_of none = none
parent_of (some table) = table.parent

unfoldable pub popped : Option ℕ → Action Done
popped none = stop
popped (some p) = λ s. ok tt (record s { top = p })

-- `PopSymTable`
unfoldable pub pop_sym_table : Action Done
pop_sym_table s = popped (parent_of (get_elem? s.store s.top)) s

-- `LoadTemporaryStack`, with its assertion that the table is not null
unfoldable pub load_temporary_stack : Option ℕ → Action Done
load_temporary_stack none = stop
load_temporary_stack (some t) = λ s. ok tt (record s { top = t; history = s.top ∷ s.history })

unfoldable pub restored : List ℕ → Action Done
restored [] = stop
restored (t ∷ history) = λ s. ok tt (record s { top = t; history = history })

-- `UnloadTemporaryStack`
unfoldable pub unload_temporary_stack : Action Done
unload_temporary_stack s = restored s.history s

-- all that these operations compute with
unfoldable pub running : Unit {0}
unfolding top_of looked_up look lookup_symbol get_symbol_line check_tag report_redeclaration refuse
    after_insert insert_symbol written write_at write_symbol pushed push_sym_table popped
    pop_sym_table load_temporary_stack restored unload_temporary_stack SymTable.running
running = tt
