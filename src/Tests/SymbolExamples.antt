-- ===== src/Tests/SymbolExamples.antt =====
-- Both phases of src/resolver.c on the files of small disks, and the theorems there.
use lemon.Base.{
  take, ◌-◌, ℕ, ◌+◌, Bool, true, set, replicate, ◌≡◌, refl, false, List, [], ◌∷◌, Option, none,
  some, bytes_eq, if◌then◌else◌, codes, length, arith,
}
use lemon.Parser.Tree.{base, named, pointer, array, Param, udt, Module}
use lemon.Resolver.Balance.{resolve_module-Leaves}
use lemon.Resolver.Begins.{only_global}
use lemon.Resolver.Frames.{Frame, Result, Done, ok}
use lemon.Resolver.Steady.{Leaves}
use lemon.Resolver.Symbols
use lemon.Resolver.Symbols.{resolve_module}
use lemon.Map.{Map, slot_open, slot_closed}
use lemon.Resolver.Begins.{insertion}
use lemon.Resolver.Finds.{Meets, lookup_base_type-Meets}
use lemon.Resolver.Lookups.{lookup_base_type}
use lemon.Str.{Snprintf}
use lemon.Str.Texts.{Prints}
use lemon.SymTable
use lemon.SymTable.{Symbol, Table, Entered, entered, Lookup, sym_table_insert, table_global}
use lemon.SymTable.Capacity.{Settles, sym_table_insert-Settles}
use lemon.SymTable.Scopes.{IsScoped, Sees}
use lemon.SymTable.Spawning.{new_table}
use lemon.Resolver.Init
use lemon.Resolver.Init.{Resolution, resolved, refused, halted, unfinished, resolver_init}
use lemon.Resolver.Loads.{Disk, load_tree}
use lemon.Resolver.Signatures.{create_method_signature_lem, create_func_signature-IsPlain}
use lemon.Resolver.Types.{create_func_signature, create_method_signature}

-- numbers of one digit
abbrev digit : ℕ → List ℕ
digit n = (b'0' + n) ∷ []

abbrev one_digit : Snprintf
one_digit = record { value = λ n. 1; written = λ size n. take (size - 1) (digit n) }

one_digit-Prints : Prints one_digit digit
one_digit-Prints = record {
  printed = λ n. omega arith;
  whole = λ n. refl;
  cut = λ size n some_room. refl;
}

abbrev sole : List ℕ → Disk
sole text name = if bytes_eq name (codes "a.lem") then some text else none

abbrev pair : List ℕ → List ℕ → Disk
pair one two name =
    if bytes_eq name (codes "a.lem")
    then some one
    else if bytes_eq name (codes "b.lem")
    then some two
    else none

-- how a run ends, with the number of its tables
pub data End : Type 0 where
  with_tables : ℕ → End
  null stop fuel_out : End

abbrev end_of : Resolution → End
end_of (resolved net s) = with_tables (length s.store)
end_of refused = null
end_of halted = stop
end_of unfinished = fuel_out

-- the tables of the program, of the module, of the structure and of the function
scopes_run :
    end_of (
      resolver_init one_digit 2
        (load_tree (
          sole (
            codes
              "let x: s = 1;\nstruct s { y: int32; };\nfunc f(p: *s) -> int32 { return p; }\n")))
        (codes "a"))
    ≡ with_tables 4
unfolding Init.running
scopes_run = refl

public_run :
    end_of (
      resolver_init one_digit 3
        (load_tree
          (pair (codes "import \"b\"\nlet x: b.s = 1;\n") (codes "struct pub s { y: int32; };\n")))
        (codes "a"))
    ≡ with_tables 4
unfolding Init.running
public_run = refl

-- a type that is not public, a type that is not declared, and a name that is declared twice
private_run :
    end_of (
      resolver_init one_digit 3
        (load_tree
          (pair (codes "import \"b\"\nlet x: b.s = 1;\n") (codes "struct s { y: int32; };\n")))
        (codes "a"))
    ≡ null
unfolding Init.running
private_run = refl

undeclared_run :
    end_of (resolver_init one_digit 2 (load_tree (sole (codes "let x: t = 1;\n"))) (codes "a"))
    ≡ null
unfolding Init.running
undeclared_run = refl

twice_run :
    end_of (
      resolver_init one_digit 2
        (load_tree (sole (codes "let x: int32 = 1;\nlet x: int32 = 2;\n")))
        (codes "a"))
    ≡ null
unfolding Init.running
twice_run = refl

-- The program stops: a module is imported twice, a module has the name of a native type, and a parameter
-- is declared twice.
import_twice :
    end_of (
      resolver_init one_digit 3
        (load_tree (pair (codes "import \"b\"\nimport \"b\"\n") (codes "let x: int32 = 1;\n")))
        (codes "a"))
    ≡ stop
unfolding Init.running
import_twice = refl

native_module :
    end_of (
      resolver_init one_digit 2
        (load_tree (λ name. some (codes "let x: int32 = 1;\n")))
        (codes "string"))
    ≡ stop
unfolding Init.running
native_module = refl

param_twice :
    end_of (
      resolver_init one_digit 2
        (load_tree (sole (codes "func f(x: int32, x: int32) -> int32 { return x; }\n")))
        (codes "a"))
    ≡ stop
unfolding Init.running
param_twice = refl

abbrev some_params : List Param
some_params =
    record { name = codes "x"; typ = array (base (codes "int32") 1) 3 1; line = 1; mutable = false }
    ∷ record {
      name = codes "y";
      typ = pointer (named (codes "b") (base (codes "s") 1) 1) 1;
      line = 1;
      mutable = false;
    }
    ∷ []

create_method_signature_lem_example :
    create_method_signature one_digit some_params none (base (codes "s") 1)
    ≡ some (codes "[]int32,*bs::s")
create_method_signature_lem_example =
    create_method_signature_lem digit one_digit one_digit-Prints some_params none
      (base (codes "s") 1) (omega arith)

abbrev plain_params : List Param
plain_params =
    record { name = codes "x"; typ = pointer (base (codes "int32") 1) 1; line = 1; mutable = false }
    ∷ record { name = codes "y"; typ = base (codes "bool") 1; line = 1; mutable = false }
    ∷ []

create_func_signature-IsPlain_example :
    create_func_signature one_digit plain_params (some (base (codes "float64") 1))
    ≡ some (codes "*int32,bool:float64")
create_func_signature-IsPlain_example =
    create_func_signature-IsPlain digit one_digit one_digit-Prints plain_params
      (some (base (codes "float64") 1)) (tt, (tt, tt)) tt (omega arith)

-- a global table without the native types, and a structure that names itself
abbrev bare : Frame
bare = record { top = 0; history = []; store = new_table none table_global 16 ∷ [] }

abbrev node : Module
node = record {
  imports = [];
  declarations =
      udt (codes "s")
        (record {
          name = codes "next";
          typ = pointer (base (codes "s") 2) 2;
          line = 2;
          public = false;
        }
          ∷ [])
        false 1
      ∷ [];
  alias = codes "a";
}

resolve_module-Leaves_example : Leaves bare (resolve_module one_digit node bare)
resolve_module-Leaves_example =
    resolve_module-Leaves one_digit node bare (only_global 16)
      (new_table none table_global 16, refl)

abbrev top_and_tables : Result Done → Option (ℕ × ℕ)
top_and_tables (ok _ s) = some (s.top, length s.store)
top_and_tables _ = none

bare_run : top_and_tables (resolve_module one_digit node bare) ≡ some (0, 3)
unfolding Symbols.running bytes_eq
bare_run = refl

-- the same table with a structure
abbrev structure : Bool → Symbol
structure referenced = SymTable.udt none 0 1 referenced true

abbrev entry : Bool → Map Symbol
entry referenced = record {
  len = 1;
  cap = 32;
  buf = set (replicate 32 slot_open) 21 (slot_closed (codes "s") (structure referenced));
}

abbrev global_with : Bool → List Table
global_with referenced =
    record { tag = table_global; parent = none; entries = entry referenced } ∷ []

entered_run :
    sym_table_insert bare.store 0 (codes "s") (structure false) ≡ entered 21 (global_with false)
unfolding SymTable.running bytes_eq
entered_run = refl

abbrev with_structure : Frame
with_structure = record { top = 0; history = []; store = global_with false }

with_structure-IsScoped : IsScoped with_structure.store
with_structure-IsScoped =
    (insertion (codes "s") (structure false) bare 21 (global_with false) (only_global 16)
      (new_table none table_global 16, refl) entered_run).sound.scoped

lookup_base_type-Meets_example :
    (l : Lookup) × Sees with_structure.store (codes "s") 0 l
    × Meets (codes "s") with_structure l (lookup_base_type (base (codes "s") 2) with_structure)
lookup_base_type-Meets_example =
    lookup_base_type-Meets (codes "s") with_structure with_structure-IsScoped 2 (omega arith)
      (omega arith)

marked_run :
    lookup_base_type (base (codes "s") 2) with_structure
    ≡ ok (some (structure true)) (record with_structure { store = global_with true })
unfolding Symbols.running bytes_eq
marked_run = refl

sym_table_insert-Settles_example :
    Settles
      (global_with false)
      0
      (record { tag = table_global; parent = none; entries = entry false })
      (codes "t")
      (structure false)
      3
      (sym_table_insert (global_with false) 0 (codes "t") (structure false))
sym_table_insert-Settles_example =
    sym_table_insert-Settles (global_with false) 0
      (record { tag = table_global; parent = none; entries = entry false }) (codes "t")
      (structure false) 3 with_structure-IsScoped refl (omega arith)
