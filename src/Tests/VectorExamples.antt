-- ===== src/Tests/VectorExamples.antt =====
-- The properties of vectors and growable strings at concrete ones.
use lemon.Base.{take, ◌-◌, ℕ, ◌≡◌, refl, some, List, [], ◌∷◌, ◌++◌, replicate, codes, arith}
use lemon.Vector.{Vector, vector_push, vector_pop}
use lemon.Vector.Laws.{IsValid, elements, Leaves, vector_push_lem, vector_pop_lem}
use lemon.Str.{VString, vstring_append_cstring, Snprintf, vstring_append_int_max, vstring_trim}
use lemon.Str.Texts.{Text, Holds, vstring_append_cstring_lem}
use lemon.Str.Trim.{EndsOther, vstring_trim_lem}

-- a full vector
abbrev two : Vector ℕ
two = record { len = 2; cap = 2; buffer = 3 ∷ 4 ∷ [] }

two-IsValid : IsValid two
two-IsValid = record { in_use = omega arith; storage = refl; countable = omega arith }

vector_push_lem_example : Leaves (vector_push 0 two 5) ((3 ∷ 4 ∷ []) ++ 5 ∷ [])
vector_push_lem_example = vector_push_lem 0 two two-IsValid 5 (omega arith)

vector_pop_lem_example :
    (v : Vector ℕ) × (vector_pop 0 two ≡ some (4, v)) × IsValid v × (elements v ≡ 3 ∷ [])
vector_pop_lem_example = vector_pop_lem 0 two two-IsValid (3 ∷ []) 4 refl

-- a string that fills its buffer
abbrev word : VString
word = record { len = 4; cap = 4; buffer = codes "abb" ++ 0 ∷ [] }

word-Text : Text word (codes "abb")
word-Text = record {
  sound = record { in_use = omega arith; storage = refl; countable = omega arith };
  terminated = refl;
}

vstring_append_cstring_lem_example :
    Holds (vstring_append_cstring word (codes "cd")) (codes "abb" ++ codes "cd")
vstring_append_cstring_lem_example =
    vstring_append_cstring_lem word (codes "abb") word-Text (codes "cd") (omega arith)

-- of 128 two digits are left
abbrev hundreds : Snprintf
hundreds = record { value = λ n. 3; written = λ size n. take (size - 1) (codes "128") }

cut_number : vstring_append_int_max hundreds word 128 ≡ vstring_append_cstring word (codes "12")
unfolding vstring_append_int_max
cut_number = refl

vstring_trim_lem_example :
    (ys : List ℕ) × (k : ℕ) × (codes "abb" ≡ ys ++ replicate k 98)
    × EndsOther ys 98
    × Holds (vstring_trim word 98) ys
vstring_trim_lem_example = vstring_trim_lem word (codes "abb") 98 word-Text
