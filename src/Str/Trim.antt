-- ===== src/Str/Trim.antt =====
-- `vStringTrim` of src/lib/str.h: the text without the run of a byte at its end.
use lemon.Base.{
  ℕ, zero, suc, ◌+◌, ◌-◌, ◌≤◌, ◌<◌, ◌≡◌, refl, sym, ap, ap₂, subst, ◌∙◌, ◌≢◌, ◌⊎◌, inl, inr,
  Bool-cases, List, [], ◌∷◌, ◌++◌, append_assoc, append-nil, ◌==◌, get_or, get_elem?-eq-get_or, set,
  take, replicate, length, length-take, arith, ==_iff,
}
use lemon.Vector.Laws.{IsValid, elements, vector_set_lem}
use lemon.Vector.Takes.{get_elem?-take_in}
use lemon.Str.{VString, and_then, trim_loop, vstring_trim}
use lemon.Str.Texts.{Text, Holds, len_text, nonempty, set-append-last, take-append-last}

take-suc :
    (n : ℕ) (xs : List ℕ) → n < length xs → take (suc n) xs ≡ take n xs ++ (get_or xs n 0 ∷ [])
take-suc n [] h = absurd (omega arith)
take-suc zero (x ∷ xs) h = refl
take-suc (suc n) (x ∷ xs) h = ap (λ zs. x ∷ zs) (take-suc n xs (omega arith))

replicate-snoc : (k a : ℕ) → replicate k a ++ (a ∷ []) ≡ a ∷ replicate k a
replicate-snoc zero a = refl
replicate-snoc (suc k) a = ap (λ zs. a ∷ zs) (replicate-snoc k a)

-- The text is empty or its last byte is another one.
abbrev pub EndsOther : List ℕ → ℕ → Type 0
EndsOther ys ch = (ys ≡ []) ⊎ ((zs : List ℕ) × ((z : ℕ) × (ys ≡ zs ++ (z ∷ [])) × (z ≢ ch)))

trim_loop_lem :
    (buffer : List ℕ) (ch n : ℕ)
    → n ≤ length buffer
    → (trim_loop buffer ch n ≤ n)
      × (take n buffer
          ≡ take (trim_loop buffer ch n) buffer ++ replicate (n - trim_loop buffer ch n) ch)
      × EndsOther (take (trim_loop buffer ch n) buffer) ch
unfolding trim_loop
trim_loop_lem buffer ch zero h = (omega arith, refl, inl refl)
trim_loop_lem buffer ch (suc n) h = elim (Bool-cases (get_or buffer n 0 == ch)) [
  | inl same ↦
      let (small, split, other) = trim_loop_lem buffer ch n (omega arith) in
      rw same
        (omega (arith, small), longer small split ((==_iff (get_or buffer n 0) ch).0 same), other)
  | inr differs ↦ rw differs (
    omega arith,
    whole,
    inr (
      take n buffer,
      (
        get_or buffer n 0,
        take-suc n buffer (omega arith),
        λ e. cc (sym differs ∙ (==_iff (get_or buffer n 0) ch).1 e),
      ),
    ),
  )
]
  where
    whole : take (suc n) buffer ≡ take (suc n) buffer ++ replicate (suc n - suc n) ch
    whole = let e : suc n - suc n ≡ 0 = omega arith in rw e (sym (append-nil (take (suc n) buffer)))

    longer :
        trim_loop buffer ch n ≤ n
        → take n buffer
          ≡ take (trim_loop buffer ch n) buffer ++ replicate (n - trim_loop buffer ch n) ch
        → get_or buffer n 0 ≡ ch
        → take (suc n) buffer
          ≡ take (trim_loop buffer ch n) buffer ++ replicate (suc n - trim_loop buffer ch n) ch
    longer small split is =
        let more : suc n - trim_loop buffer ch n ≡ suc (n - trim_loop buffer ch n) = omega arith in
        take-suc n buffer (omega arith)
        ∙ ap₂ (λ us u. us ++ (u ∷ [])) split is
        ∙ append_assoc (take (trim_loop buffer ch n) buffer) _ (ch ∷ [])
        ∙ ap (λ us. take (trim_loop buffer ch n) buffer ++ us)
            (replicate-snoc (n - trim_loop buffer ch n) ch ∙ ap (λ k. replicate k ch) (sym more))

-- On a string that holds a text `vStringTrim` comes back, with the text less the longest run of the byte
-- at its end.
pub vstring_trim_lem :
    (vstr : VString) (xs : List ℕ) (ch : ℕ)
    → Text vstr xs
    → (ys : List ℕ) × (k : ℕ) × (xs ≡ ys ++ replicate k ch)
      × EndsOther ys ch
      × Holds (vstring_trim vstr ch) ys
unfolding vstring_trim and_then
vstring_trim_lem vstr xs ch text =
    let n = vstr.len - 1 in
    let r = trim_loop vstr.buffer ch n in
    let size = len_text vstr xs text in
    let (small, split, other) =
      trim_loop_lem vstr.buffer ch n (omega (arith, text.sound.in_use, text.sound.storage)) in
    let last : n ≡ length xs = omega (arith, size) in
    let bare : take n vstr.buffer ≡ xs =
      ap (λ k. take k vstr.buffer) last
      ∙ take-append-last vstr.len vstr.buffer xs 0 text.terminated in
    let inside : r < length vstr.buffer =
      omega (arith, small, size, text.sound.in_use, text.sound.storage) in
    let valid : IsValid (record vstr { len = r + 1 }) = record {
      in_use = omega (arith, small, size, text.sound.in_use);
      storage = text.sound.storage;
      countable = text.sound.countable;
    } in
    let plus : r + 1 ≡ suc r = omega arith in
    let front : take (r + 1) vstr.buffer ≡ take r vstr.buffer ++ (get_or vstr.buffer r 0 ∷ []) =
      ap (λ k. take k vstr.buffer) plus ∙ take-suc r vstr.buffer inside in
    let width : length (take r vstr.buffer) ≡ r =
      omega (arith, length-take r vstr.buffer, inside) in
    let (v1, e, valid1, same) =
      vector_set_lem 0 (record vstr { len = r + 1 }) valid 0 r (get_or vstr.buffer r 0)
        (get_elem?-take_in (r + 1) r vstr.buffer (omega arith)
          ∙ get_elem?-eq-get_or vstr.buffer r 0 inside) in
    let now : elements v1 ≡ take r vstr.buffer ++ (0 ∷ []) =
      same
      ∙ ap (λ us. set us r 0) front
      ∙ subst
          (λ k.
            set (take r vstr.buffer ++ (get_or vstr.buffer r 0 ∷ [])) k 0
            ≡ take r vstr.buffer ++ (0 ∷ []))
          width (set-append-last (take r vstr.buffer) (get_or vstr.buffer r 0) 0) in
    (
      take r vstr.buffer,
      n - r,
      sym bare ∙ split,
      other,
      rw (nonempty vstr xs text, e) (v1, refl, record { sound = valid1; terminated = now }),
    )
