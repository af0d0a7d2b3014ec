-- ===== src/Resolver/Sorts.antt =====
-- `Sort` and the mark behind it in src/resolver.c: what each module is after them.
use lemon.Base.{
  ℕ, ◌≡◌, ◌≢◌, refl, ap, ◌∙◌, true, false, Option, none, some, get_elem?, length, if◌then◌else◌,
  ◌==◌, arith,
}
use lemon.Map.{map_get}
use lemon.Parser.Tree.{CString}
use lemon.Resolver.{
  Vertex, Network, modify, with_flag, with_next, write_flag, link, sort, off_call_stack,
}
use lemon.Resolver.Places.{modify_lem, length-modify}

-- the network that the end of `InsertModule` leaves
abbrev pub closed : Network → ℕ → Network
closed net i = write_flag (sort net i) i off_call_stack

unfoldable pub linked : Option ℕ → ℕ → ℕ → Vertex → Vertex
linked none i j v = v
linked (some p) i j v = if p == j then with_next (some i) v else v

link-get :
    (net : Network) (prev : Option ℕ) (i j : ℕ) (v : Vertex)
    → get_elem? net.modules j ≡ some v
    → get_elem? (link net prev i).modules j ≡ some (linked prev i j v)
unfolding link linked
link-get net none i j v e = e
link-get net (some p) i j v e = modify_lem (with_next (some i)) net.modules p j v e

-- a module of the network after it
pub module_after : Network → ℕ → ℕ → Vertex → Vertex
module_after net i j v =
    let w = linked net.prev i j v in
    let u = if i == j then with_next none w else w in if i == j then with_flag true u else u

pub closed-get :
    (net : Network) (i j : ℕ) (v : Vertex)
    → get_elem? net.modules j ≡ some v
    → get_elem? (closed net i).modules j ≡ some (module_after net i j v)
unfolding write_flag sort module_after
closed-get net i j v e =
    let w = linked net.prev i j v in
    modify_lem (with_flag true) (modify (with_next none) (link net net.prev i).modules i) i j
      (if i == j then with_next none w else w)
      (modify_lem (with_next none) (link net net.prev i).modules i j w
        (link-get net net.prev i j v e))

pub linked-keep :
    (prev : Option ℕ) (i j : ℕ) (v : Vertex)
    → ((linked prev i j v).ast ≡ v.ast) × ((linked prev i j v).flag ≡ v.flag)
unfolding linked
linked-keep none i j v = (refl, refl)
linked-keep (some p) i j v = (ground arith, ground arith)

pub module_after-ast : (net : Network) (i j : ℕ) (v : Vertex) → (module_after net i j v).ast ≡ v.ast
unfolding module_after
module_after-ast net i j v = ground (arith, linked-keep net.prev i j v)

pub module_after_self :
    (net : Network) (i : ℕ) (v : Vertex)
    → ((module_after net i i v).flag ≡ true) × ((module_after net i i v).next ≡ none)
unfolding module_after
module_after_self net i v = let e : (i == i) ≡ true = ground arith in rw e (refl, refl)

pub module_after_other :
    (net : Network) (i j : ℕ) (v : Vertex) → i ≢ j → module_after net i j v ≡ linked net.prev i j v
unfolding module_after
module_after_other net i j v ne = let e : (i == j) ≡ false = ground arith in rw e refl

pub closed-same :
    (net : Network) (i : ℕ)
    → ((closed net i).dependencies ≡ net.dependencies)
      × (length (closed net i).modules ≡ length net.modules)
unfolding write_flag sort link
closed-same net i =
    let (e, l) = link-same net.prev in
    (
      e,
      length-modify (with_flag true) (modify (with_next none) (link net net.prev i).modules i) i
          ∙ length-modify (with_next none) (link net net.prev i).modules i
          ∙ l,
    )
  where
    link-same :
        (prev : Option ℕ)
        → ((link net prev i).dependencies ≡ net.dependencies)
          × (length (link net prev i).modules ≡ length net.modules)
    link-same none = (refl, refl)
    link-same (some p) = (refl, length-modify (with_next (some i)) net.modules p)

pub closed_get :
    (net : Network) (i : ℕ) (q : CString)
    → map_get (closed net i).dependencies q ≡ map_get net.dependencies q
closed_get net i q = ap (λ d. map_get d q) (closed-same net i).0
