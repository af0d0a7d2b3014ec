-- ===== src/Resolver/Lengths.antt =====
-- A list of modules in order is no longer than a list of all their files.
use lemon.Base.{suc, ◌≤◌, ◌≡◌, ◌≢◌, refl, sym, ap, ◌∙◌, subst, List, [], ◌∷◌, length, arith}
use lemon.Parser.Tree.{CString, Module}
use lemon.Resolver.Imports.{Sorted, files}
use mathlib.Core.List.{Memᴰ}

-- the names but one
remove : (names : List CString) (x : CString) → Memᴰ x names → List CString
remove [] x m = []
remove (y ∷ names) x (Memᴰ.head e) = names
remove (y ∷ names) x (Memᴰ.tail m) = y ∷ remove names x m

length-remove :
    (names : List CString) (x : CString) (m : Memᴰ x names)
    → length names ≡ suc (length (remove names x m))
unfolding remove
length-remove [] x m = elim m [ ]
length-remove (y ∷ names) x (Memᴰ.head e) = refl
length-remove (y ∷ names) x (Memᴰ.tail m) = ap suc (length-remove names x m)

mem-remove :
    (names : List CString) (x y : CString) (m : Memᴰ x names)
    → Memᴰ y names
    → y ≢ x
    → Memᴰ y (remove names x m)
unfolding remove
mem-remove [] x y m t ne = elim t [ ]
mem-remove (z ∷ names) x y (Memᴰ.head e) (Memᴰ.head e') ne = absurd (ne (e' ∙ sym e))
mem-remove (z ∷ names) x y (Memᴰ.head e) (Memᴰ.tail t) ne = t
mem-remove (z ∷ names) x y (Memᴰ.tail m) (Memᴰ.head e') ne = Memᴰ.head e'
mem-remove (z ∷ names) x y (Memᴰ.tail m) (Memᴰ.tail t) ne = Memᴰ.tail (mem-remove names x y m t ne)

Sorted-apart :
    (earlier : List CString) (ms : List Module) (q : CString)
    → Sorted earlier ms
    → Memᴰ q (files ms)
    → Memᴰ q earlier
    → ⊥
Sorted-apart earlier [] q sorted m m' = elim m [ ]
Sorted-apart earlier (a ∷ ms) q (first, alone, sorted) (Memᴰ.head e) m' =
    alone (subst (λ u. Memᴰ u earlier) e m')
Sorted-apart earlier (a ∷ ms) q (first, alone, sorted) (Memᴰ.tail m) m' =
    Sorted-apart (a.alias ∷ earlier) ms q sorted m (Memᴰ.tail m')

-- a list with no file twice is no longer than a list of all its files
pub Sorted-length :
    (earlier names : List CString) (ms : List Module)
    → Sorted earlier ms
    → ((q : CString) → Memᴰ q (files ms) → Memᴰ q names)
    → length ms ≤ length names
Sorted-length earlier names [] sorted within = omega arith
Sorted-length earlier names (a ∷ ms) (first, alone, sorted) within =
    let m = within a.alias (Memᴰ.head refl) in
    omega (
      arith,
      length-remove names a.alias m,
      Sorted-length (a.alias ∷ earlier) (remove names a.alias m) ms sorted (λ q t.
          mem-remove names a.alias q m (within q (Memᴰ.tail t))
            (λ e. Sorted-apart (a.alias ∷ earlier) ms q sorted t (Memᴰ.head e))),
    )
