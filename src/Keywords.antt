-- ===== src/Keywords.antt =====
-- src/assets/kmap.c: the perfect hash that recognises keywords, and src/assets/keywords.txt, the
-- list that it is built from.
pub mod Table
pub mod Correct
use lemon.Base.{
  ℕ, zero, suc, ◌+◌, ◌≡◌, refl, Bool, true, false, ◌&&◌, Option, none, some, List, [], ◌∷◌, ltb,
  leb, ◌==◌, if◌then◌else◌, get_or, length, codes,
}
use lemon.Keywords.Table.{KvPair, wordlist, asso_values}
use lemon.Token.{TokenType, deref, let_kw}

-- `hash`; the sum is at most 11 + 40 + 40 at the lengths that reach it, so it does not wrap
unfoldable pub hash : List ℕ → ℕ → ℕ
unfolding asso_values
hash str len = len + get_or asso_values (get_or str 1 0) 0 + get_or asso_values (deref str) 0

-- `!strncmp(a, b, n)`
unfoldable pub strncmp_eq : ℕ → List ℕ → List ℕ → Bool
strncmp_eq zero a b = true
strncmp_eq (suc n) [] b = deref b == 0
strncmp_eq (suc n) (x ∷ a) [] = x == 0
strncmp_eq (suc n) (x ∷ a) (y ∷ b) =
    if x == y then (if x == 0 then true else strncmp_eq n a b) else false

-- the tests behind the read of the table
unfoldable pub match_pair : List ℕ → ℕ → Option KvPair → Option TokenType
match_pair str len none = none
match_pair str len (some kv) = if strncmp_eq len str kv.name then some kv.typ else none

-- `kmap_lookup`
unfoldable pub kmap_lookup : List ℕ → ℕ → Option TokenType
kmap_lookup str len =
    if leb len 11 && leb 2 len
    then (let key = hash str len in
        if leb key 39 then match_pair str len (get_or wordlist key none) else none)
    else none

-- all that a run of `kmap_lookup` computes with
unfoldable pub running : Unit {0}
unfolding hash match_pair strncmp_eq wordlist kmap_lookup
running = tt

lookup_let : kmap_lookup (codes "lets") 3 ≡ some let_kw
unfolding running
lookup_let = refl

lookup_le : kmap_lookup (codes "let") 2 ≡ none
unfolding running
lookup_le = refl
