-- ===== src/Str/Texts.antt =====
-- What the operations of src/lib/str.h do to the text of a string, the bytes before its NUL.
use lemon.Base.{
  replicate, leb, true, ◌≤◌, length-replicate, ℕ, zero, suc, ◌+◌, ◌-◌, ◌<◌, ◌≡◌, refl, sym, ap,
  subst, ◌∙◌, false, Option, some, List, [], ◌∷◌, ◌++◌, append_assoc, append-nil, ◌==◌, get_elem?,
  set, take, length, length-append, length-take, size_max, arith,
}
use lemon.Vector.Laws.{IsValid, elements, Leaves, vector_push_lem, vector_set_lem}
use lemon.Vector.{vector_init, vector_reset}
use lemon.Str.{
  VString, and_then, vstring_init, vstring_reset, vstring_terminate, vstring_append, push_all,
  vstring_append_cstring, Snprintf, vstring_append_int_max,
}

-- What the C library documents of `snprintf`, with `print` for the whole text of a number: it returns the
-- length of the text, which is one digit or more, and told a size n that is not 0 it writes at most n - 1 bytes
-- of the text before the NUL.
pub record Prints (snprintf : Snprintf) (print : ℕ → List ℕ) : Type 0 where
  pub printed : (n : ℕ) → 0 < length (print n)
  pub whole : (n : ℕ) → snprintf.value n ≡ length (print n)
  pub cut : (size n : ℕ) → 0 < size → snprintf.written size n ≡ take (size - 1) (print n)

-- A string holds a text.
pub record Text (vstr : VString) (xs : List ℕ) : Type 0 where
  pub sound : IsValid vstr
  pub terminated : elements vstr ≡ xs ++ (0 ∷ [])

abbrev pub Holds : Option VString → List ℕ → Type 0
Holds r xs = (vstr : VString) × (r ≡ some vstr) × Text vstr xs

pub length-elements : (v : VString) → IsValid v → length (elements v) ≡ v.len
length-elements v valid = omega (arith, length-take v.len v.buffer, valid.in_use, valid.storage)

pub vstring_terminate-Holds :
    (v : VString) → IsValid v → v.len < size_max → Holds (vstring_terminate v) (elements v)
unfolding vstring_terminate
vstring_terminate-Holds v valid room =
    let (v', e, valid', same) = vector_push_lem 0 v valid 0 room in
    (v', e, record { sound = valid'; terminated = same })

pub set-append-last : (xs : List ℕ) (x y : ℕ) → set (xs ++ (x ∷ [])) (length xs) y ≡ xs ++ (y ∷ [])
set-append-last [] x y = refl
set-append-last (z ∷ xs) x y = ap (λ zs. z ∷ zs) (set-append-last xs x y)

pub get-append-last : (xs : List ℕ) (x : ℕ) → get_elem? (xs ++ (x ∷ [])) (length xs) ≡ some x
get-append-last [] x = refl
get-append-last (z ∷ xs) x = get-append-last xs x

pub take-append-last :
    (n : ℕ) (buffer xs : List ℕ) (x : ℕ)
    → take n buffer ≡ xs ++ (x ∷ [])
    → take (length xs) buffer ≡ xs
take-append-last n buffer [] x e = refl
take-append-last zero buffer (y ∷ xs) x e = absurd (cc)
take-append-last (suc n) [] (y ∷ xs) x e = absurd (cc)
take-append-last (suc n) (b ∷ buffer) (y ∷ xs) x e =
    let tails : take n buffer ≡ xs ++ (x ∷ []) = cc in
    let heads : b ≡ y = cc in rw heads (ap (λ zs. y ∷ zs) (take-append-last n buffer xs x tails))

-- `vStringInit` comes back with the empty text, for every capacity that a 64-bit number holds.
pub vstring_init_lem : (c : ℕ) → c ≤ size_max → Holds (vstring_init c) []
unfolding vstring_init and_then vector_init
vstring_init_lem c small =
    let none_used : leb 0 c ≡ true = ground arith in
    rw none_used (
      vstring_terminate-Holds (record { len = 0; cap = c; buffer = replicate c 0 })
        (record { in_use = omega arith; storage = length-replicate c 0; countable = small })
        (omega arith))

module _ (vstr : VString) (xs : List ℕ) (text : Text vstr xs) where
  pub len_text : vstr.len ≡ length xs + 1
  len_text =
      omega (
        arith,
        length-elements vstr text.sound,
        ap length text.terminated,
        length-append xs (0 ∷ []),
      )

  pub nonempty : (vstr.len == 0) ≡ false
  nonempty = ground (arith, len_text)

  -- On a string that holds a text and is below the largest length `vStringAppend` comes back, with the
  -- byte added to the text.
  pub vstring_append_lem :
      (ch : ℕ) → vstr.len < size_max → Holds (vstring_append vstr ch) (xs ++ (ch ∷ []))
  unfolding vstring_append and_then
  vstring_append_lem ch room =
      let last : vstr.len - 1 ≡ length xs = omega (arith, len_text) in
      let (v1, e, valid, same) =
        vector_set_lem 0 vstr text.sound ch (vstr.len - 1) 0
          (rw (text.terminated, last) (get-append-last xs 0)) in
      let now : elements v1 ≡ xs ++ (ch ∷ []) =
        same ∙ rw (text.terminated, last) (set-append-last xs 0 ch) in
      let short : v1.len < size_max =
        omega
          (arith, length-elements v1 valid, ap length now, length-append xs (ch ∷ []), len_text) in
      let (v2, e2, text2) = vstring_terminate-Holds v1 valid short in
      rw (nonempty, e) (v2, e2, subst (Text v2) now text2)

module _ (vstr : VString) (xs : List ℕ) (text : Text vstr xs) where
  -- On a string that holds a text `vStringReset` comes back with the empty text.
  pub vstring_reset_lem : Holds (vstring_reset vstr) []
  unfolding vstring_reset and_then vector_reset
  vstring_reset_lem =
      let guard : leb vstr.len vstr.cap ≡ true = ground (arith, text.sound.in_use) in
      rw (nonempty vstr xs text, guard)
        (vstring_terminate-Holds (record vstr { len = 0 })
          (record {
            in_use = omega arith;
            storage = text.sound.storage;
            countable = text.sound.countable;
          })
          (omega arith))

push_all-Leaves :
    (v : VString) (cs : List ℕ)
    → IsValid v
    → v.len + length cs < size_max
    → Leaves (push_all v cs) (elements v ++ cs)
unfolding push_all and_then
push_all-Leaves v [] valid room = (v, refl, valid, sym (append-nil (elements v)))
push_all-Leaves v (c ∷ cs) valid room =
    let (v1, e, valid1, same) = vector_push_lem 0 v valid c (omega arith) in
    let size : v1.len ≡ v.len + 1 = omega (
      arith,
      length-elements v1 valid1,
      length-elements v valid,
      ap length same,
      length-append (elements v) (c ∷ []),
    ) in
    let (v2, e2, valid2, same2) = push_all-Leaves v1 cs valid1 (omega arith) in
    rw e (v2, e2, valid2, same2 ∙ ap (λ ys. ys ++ cs) same ∙ append_assoc (elements v) (c ∷ []) cs)

module _ (vstr : VString) (xs : List ℕ) (text : Text vstr xs) where
  -- On a string that holds a text, if the length stays below the largest, `vStringAppendcString` comes
  -- back, with the bytes added to the text.
  pub vstring_append_cstring_lem :
      (cs : List ℕ)
      → vstr.len + length cs < size_max
      → Holds (vstring_append_cstring vstr cs) (xs ++ cs)
  unfolding vstring_append_cstring and_then
  vstring_append_cstring_lem cs room =
      let last : vstr.len - 1 ≡ length xs = omega (arith, len_text vstr xs text) in
      let bare : elements (record vstr { len = vstr.len - 1 }) ≡ xs =
        rw last (take-append-last vstr.len vstr.buffer xs 0 text.terminated) in
      let bare_valid : IsValid (record vstr { len = vstr.len - 1 }) = record {
        in_use = omega (arith, text.sound.in_use);
        storage = text.sound.storage;
        countable = text.sound.countable;
      } in
      let (v1, e, valid, same) =
        push_all-Leaves (record vstr { len = vstr.len - 1 }) cs bare_valid (omega arith) in
      let now : elements v1 ≡ xs ++ cs = same ∙ ap (λ ys. ys ++ cs) bare in
      let size : v1.len < size_max = omega (
        arith,
        length-elements v1 valid,
        ap length now,
        length-append xs cs,
        len_text vstr xs text,
      ) in
      let (v2, e2, text2) = vstring_terminate-Holds v1 valid size in
      rw (nonempty vstr xs text, e) (v2, e2, subst (Text v2) now text2)

  -- On a string that holds a text, if the length stays below the largest, `vStringAppendIntMax` adds the
  -- whole text of the number but for its last digit.
  pub vstring_append_int_max_lem :
      (snprintf : Snprintf) (print : ℕ → List ℕ)
      → Prints snprintf print
      → (number : ℕ) → vstr.len + length (print number) < size_max
      → Holds
          (vstring_append_int_max snprintf vstr number)
          (xs ++ take (length (print number) - 1) (print number))
  unfolding vstring_append_int_max
  vstring_append_int_max_lem snprintf print prints number room =
      let some_digit = prints.printed number in
      let printed : (length (print number) == 0) ≡ false = ground arith in
      rw
        (
          nonempty vstr xs text,
          prints.whole number,
          printed,
          prints.cut (length (print number)) number some_digit,
        )
        (vstring_append_cstring_lem (take (length (print number) - 1) (print number))
          (omega (arith, length-take (length (print number) - 1) (print number))))
