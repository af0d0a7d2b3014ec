-- ===== src/Resolver/Notation.antt =====
-- How the types of a signature are written, in the text of a program and in the text that src/resolver.c
-- builds.
use lemon.Base.{ℕ, ◌-◌, ◌≡◌, refl, ap, Option, none, some, List, [], ◌∷◌, ◌++◌, take, length}
use lemon.Parser.Tree.{TypeNode, base, named, pointer, array, Param}

-- A notation for types: the type of the elements behind the length of an array in brackets, a star before
-- the type that a pointer points to, and the name of a module before a type of it; with how a length
-- is printed and what stands between the two names.
abbrev pub notation : (ℕ → List ℕ) → List ℕ → TypeNode → List ℕ
notation digits between (base name line) = name
notation digits between (named name reference line) =
    name ++ (between ++ notation digits between reference)
notation digits between (pointer reference line) = b'*' ∷ notation digits between reference
notation digits between (array element len line) =
    b'[' ∷ (digits len ++ b']' ∷ notation digits between element)

-- The notation of a program's text: the length in full, and a dot.
abbrev pub source_text : (ℕ → List ℕ) → TypeNode → List ℕ
source_text print = notation print (b'.' ∷ [])

abbrev pub all_but_last : List ℕ → List ℕ
all_but_last digits = take (length digits - 1) digits

-- The text that is built for a type: the notation with the length of an array without its last digit, and
-- nothing between the two names.
abbrev pub type_text : (ℕ → List ℕ) → TypeNode → List ℕ
type_text print = notation (λ len. all_but_last (print len)) []

-- no array and no module in a type: base types and pointers
abbrev pub IsPlain : TypeNode → Type 0
IsPlain (base name line) = Unit
IsPlain (named name reference line) = ⊥
IsPlain (pointer reference line) = IsPlain reference
IsPlain (array element len line) = ⊥

notation-IsPlain :
    (node : TypeNode) (digits digits' : ℕ → List ℕ) (between between' : List ℕ)
    → IsPlain node
    → notation digits between node ≡ notation digits' between' node
notation-IsPlain (base name line) digits digits' between between' plain = refl
notation-IsPlain (named name reference line) digits digits' between between' plain = absurd plain
notation-IsPlain (pointer reference line) digits digits' between between' plain =
    ap (λ xs. b'*' ∷ xs) (notation-IsPlain reference digits digits' between between' plain)
notation-IsPlain (array element len line) digits digits' between between' plain = absurd plain

abbrev pub ArePlain : List Param → Type 0
ArePlain [] = Unit
ArePlain (p ∷ params) = IsPlain p.typ × ArePlain params

abbrev pub IsPlainResult : Option TypeNode → Type 0
IsPlainResult none = Unit
IsPlainResult (some node) = IsPlain node

-- The texts of the types in a signature, with the text of a type given: the parameters' with commas between,
-- and that of a type that may be null behind a colon.
module _ (text : TypeNode → List ℕ) where
  abbrev pub more_text : List Param → List ℕ
  more_text [] = []
  more_text (p ∷ params) = b',' ∷ (text p.typ ++ more_text params)

  abbrev pub params_text : List Param → List ℕ
  params_text [] = []
  params_text (p ∷ params) = text p.typ ++ more_text params

  abbrev pub result_text : Option TypeNode → List ℕ
  result_text none = b':' ∷ []
  result_text (some node) = b':' ∷ text node

  abbrev pub function_text : List Param → Option TypeNode → List ℕ
  function_text params ret = params_text params ++ result_text ret

  abbrev pub method_text : List Param → Option TypeNode → TypeNode → List ℕ
  method_text params ret recv = function_text params ret ++ result_text (some recv)

module _ (print : ℕ → List ℕ) where
  type_text-IsPlain :
      (node : TypeNode) → IsPlain node → type_text print node ≡ source_text print node
  type_text-IsPlain node plain =
      notation-IsPlain node (λ len. all_but_last (print len)) print [] (b'.' ∷ []) plain

  more_text-ArePlain :
      (params : List Param)
      → ArePlain params
      → more_text (type_text print) params ≡ more_text (source_text print) params
  more_text-ArePlain [] plain = refl
  more_text-ArePlain (p ∷ params) (plain, others) =
      cc (type_text-IsPlain p.typ plain, more_text-ArePlain params others)

  pub params_text-ArePlain :
      (params : List Param)
      → ArePlain params
      → params_text (type_text print) params ≡ params_text (source_text print) params
  params_text-ArePlain [] plain = refl
  params_text-ArePlain (p ∷ params) (plain, others) =
      cc (type_text-IsPlain p.typ plain, more_text-ArePlain params others)

  pub result_text-IsPlainResult :
      (ret : Option TypeNode)
      → IsPlainResult ret
      → result_text (type_text print) ret ≡ result_text (source_text print) ret
  result_text-IsPlainResult none plain = refl
  result_text-IsPlainResult (some node) plain = ap (λ xs. b':' ∷ xs) (type_text-IsPlain node plain)
