-- ===== src/Graph.antt =====
-- src/lib/graph.h: a graph as a hash table from names to vertices, a shallow wrapper over src/lib/map.h.
use lemon.Base.{Bool, Option}
use lemon.Map.{Key, Map, Insertion, map_init, map_insert, map_get, map_set}

module _ {ℓ} {V : Type ℓ} where
  -- `GraphInit`, with `MAP_DEFAULT_CAPACITY`
  unfoldable pub graph_init : Map V
  graph_init = map_init 16

  -- `GraphInsert`; what it returns is whether the insertion is not a `duplicate`
  unfoldable pub graph_insert : Map V → Key → V → Insertion V
  graph_insert graph key vertex = map_insert graph key vertex

  -- `GraphSearch`
  unfoldable pub graph_search : Map V → Key → Option V
  graph_search graph key = map_get graph key

  -- `GraphModify`
  unfoldable pub graph_modify : Map V → Key → V → Bool × Map V
  graph_modify graph key vertex = map_set graph key vertex
