-- ===== src/Resolver/Init.antt =====
-- `ResolverInit` of src/resolver.c: the two phases one behind the other.
--
-- The fuel is for the depth of the search and for the length of the list. `snprintf` of the C library is an
-- argument.
use lemon.Base.{ℕ, Option, none, some, []}
use lemon.Parser.Tree.{CString}
use lemon.Resolver
use lemon.Resolver.{
  Network, Outcome, returned, thrown, stopped, dangling, out_of_fuel, resolve_dependencies,
}
use lemon.Resolver.Frames
use lemon.Resolver.Frames.{Frame, Result, Done}
use lemon.Resolver.Loads.{Loaded}
use lemon.Resolver.Symbols
use lemon.Resolver.Symbols.{resolve_from}
use lemon.Str.{Snprintf}
use lemon.SymTable.{Store, sym_table_init}

-- a network with the tables of its symbols; NULL; or the program stops
pub data Resolution : Type 0 where
  resolved : Network → Frame → Resolution
  refused halted unfinished : Resolution

unfoldable pub symbols_resolved : Network → Result Done → Resolution
symbols_resolved net (Frames.ok _ s) = resolved net s
symbols_resolved net Frames.thrown = refused
symbols_resolved net Frames.stopped = halted
symbols_resolved net Frames.out_of_fuel = unfinished

module _ (snprintf : Snprintf) (fuel : ℕ) where
  -- `ResolveSymbols`, with its assertion that the list has a module
  unfoldable pub resolve_symbols : Network → Option ℕ → Store → ℕ → Resolution
  resolve_symbols net none store global = halted
  resolve_symbols net (some i) store global = symbols_resolved net (
      resolve_from snprintf fuel net.modules global (some i)
        (record { top = global; history = []; store = store }))

  unfoldable pub with_global : Network → Option (Store × ℕ) → Resolution
  with_global net none = halted
  with_global net (some (store, global)) = resolve_symbols net net.head store global

  unfoldable pub second_phase : Outcome → Resolution
  second_phase (returned _ net) = with_global net (sym_table_init [] net.dependencies.len)
  second_phase (thrown problem) = refused
  second_phase stopped = halted
  second_phase dangling = halted
  second_phase out_of_fuel = unfinished

  -- `ResolverInit`
  unfoldable pub resolver_init : (CString → Loaded) → CString → Resolution
  resolver_init load filename = second_phase (resolve_dependencies fuel load filename)

-- all that a run computes with
unfoldable pub running : Unit {0}
unfolding symbols_resolved resolve_symbols with_global second_phase resolver_init Resolver.running
    Symbols.running
running = tt
