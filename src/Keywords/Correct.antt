-- ===== src/Keywords/Correct.antt =====
-- src/assets/kmap.c against src/assets/keywords.txt: the perfect hash recognises exactly the words
-- of the list.
use lemon.Base.{
  NoNul, bytes_eq, bytes_eq_eq, ℕ, zero, suc, ◌+◌, ◌≤◌, ◌≡◌, refl, sym, ap, ◌∙◌, true, inl, inr,
  Option, none, some, List, [], ◌∷◌, ◌++◌, if◌then◌else◌, get_or, length, take, drop, arith,
  Bool-cases, Option-cases, take-append-drop, drop-length, length-take, append-nil, ◌≡⟨◌⟩◌, ◌∎,
}
use lemon.Keywords.Table.{KvPair, wordlist, keywords}
use lemon.Keywords.{hash, strncmp_eq, match_pair, kmap_lookup, running}
use lemon.Token.{TokenType}

-- The type of the first line of the list whose name is the given word.
unfoldable pub find_keyword : List KvPair → List ℕ → Option TokenType
find_keyword [] w = none
find_keyword (p ∷ ps) w = if bytes_eq p.name w then some p.typ else find_keyword ps w

-- `strncmp` finds no difference in `n` bytes without NUL only if they begin the other string.
strncmp_eq_prefix :
    (n : ℕ) (a b : List ℕ)
    → n ≤ length a
    → NoNul (take n a)
    → strncmp_eq n a b ≡ true
    → b ≡ take n a ++ drop n b
unfolding strncmp_eq
strncmp_eq_prefix zero a b l h e = refl
strncmp_eq_prefix (suc n) [] b l h e = absurd (omega arith)
strncmp_eq_prefix (suc n) (x ∷ a) [] l h e = absurd (ground (arith, h.0))
strncmp_eq_prefix (suc n) (x ∷ a) (y ∷ b) l h e = ground (arith, h.0, h.1, strncmp_eq_prefix n a b)

-- The entries of a part of the table from index `i` on stand at their own hashes, and the list has
-- them with the same types.
abbrev EntriesFit : List (Option KvPair) → ℕ → Type 0
EntriesFit [] i = Unit {0}
EntriesFit (none ∷ es) i = EntriesFit es (suc i)
EntriesFit (some p ∷ es) i =
    (hash p.name (length p.name) ≡ i)
    × (find_keyword keywords p.name ≡ some p.typ)
    × EntriesFit es (suc i)

wordlist-EntriesFit : EntriesFit wordlist 0
unfolding wordlist hash keywords find_keyword bytes_eq
wordlist-EntriesFit = (
  refl,
  refl,
  (
    refl,
    refl,
    (
      refl,
      refl,
      (
        refl,
        refl,
        (
          refl,
          refl,
          (
            refl,
            refl,
            (
              refl,
              refl,
              (
                refl,
                refl,
                (
                  refl,
                  refl,
                  (
                    refl,
                    refl,
                    (
                      refl,
                      refl,
                      (
                        refl,
                        refl,
                        (
                          refl,
                          refl,
                          (
                            refl,
                            refl,
                            (
                              refl,
                              refl,
                              (
                                refl,
                                refl,
                                (
                                  refl,
                                  refl,
                                  (
                                    refl,
                                    refl,
                                    (
                                      refl,
                                      refl,
                                      (
                                        refl,
                                        refl,
                                        (
                                          refl,
                                          refl,
                                          (
                                            refl,
                                            refl,
                                            (refl, refl, (refl, refl, (refl, refl, tt))),
                                          ),
                                        ),
                                      ),
                                    ),
                                  ),
                                ),
                              ),
                            ),
                          ),
                        ),
                      ),
                    ),
                  ),
                ),
              ),
            ),
          ),
        ),
      ),
    ),
  ),
)

-- The entry that the table has at an index fits.
entry-fits :
    (es : List (Option KvPair)) (i k : ℕ) (p : KvPair)
    → EntriesFit es i
    → get_or es k none ≡ some p
    → (hash p.name (length p.name) ≡ i + k) × (find_keyword keywords p.name ≡ some p.typ)
entry-fits [] i k p f e = absurd (cc)
entry-fits (none ∷ es) i zero p f e = absurd (cc)
entry-fits (some q ∷ es) i zero p f e = ground (arith, f.0, f.1)
entry-fits (none ∷ es) i (suc k) p f e = ground (arith, entry-fits es (suc i) k p f e)
entry-fits (some q ∷ es) i (suc k) p f e = ground (arith, entry-fits es (suc i) k p f.2 e)

-- `kmap_lookup` finds a word of the list in front of any text.
abbrev Found : List KvPair → Type 0
Found [] = Unit {0}
Found (p ∷ ps) = ((r : List ℕ) → kmap_lookup (p.name ++ r) (length p.name) ≡ some p.typ) × Found ps

keywords-Found : Found keywords
unfolding keywords running
keywords-Found = (
  λ r. refl,
  (
    λ r. refl,
    (
      λ r. refl,
      (
        λ r. refl,
        (
          λ r. refl,
          (
            λ r. refl,
            (
              λ r. refl,
              (
                λ r. refl,
                (
                  λ r. refl,
                  (
                    λ r. refl,
                    (
                      λ r. refl,
                      (
                        λ r. refl,
                        (
                          λ r. refl,
                          (
                            λ r. refl,
                            (
                              λ r. refl,
                              (
                                λ r. refl,
                                (
                                  λ r. refl,
                                  (
                                    λ r. refl,
                                    (
                                      λ r. refl,
                                      (
                                        λ r. refl,
                                        (
                                          λ r. refl,
                                          (λ r. refl, (λ r. refl, (λ r. refl, (λ r. refl, tt)))),
                                        ),
                                      ),
                                    ),
                                  ),
                                ),
                              ),
                            ),
                          ),
                        ),
                      ),
                    ),
                  ),
                ),
              ),
            ),
          ),
        ),
      ),
    ),
  ),
)

find-Found :
    (ps : List KvPair) (w r : List ℕ) (t : TokenType)
    → Found ps
    → find_keyword ps w ≡ some t
    → kmap_lookup (w ++ r) (length w) ≡ some t
unfolding find_keyword
find-Found [] w r t f e = absurd (cc)
find-Found (p ∷ ps) w r t f e = elim (Bool-cases (bytes_eq p.name w)) [
  | inl same ↦ ground (arith, bytes_eq_eq p.name w same, f.0 r)
  | inr other ↦ find-Found ps w r t f.1 (rw other at e)
]

-- The hash depends on the length and the first two bytes alone.
hash-prefix :
    (a b r : List ℕ) (l m : ℕ)
    → suc (suc l) ≤ length a
    → b ≡ take (suc (suc l)) a ++ r
    → hash b m + suc (suc l) ≡ hash a (suc (suc l)) + m
unfolding hash
hash-prefix [] b r l m h e = absurd (omega arith)
hash-prefix (x ∷ []) b r l m h e = absurd (omega arith)
hash-prefix (x ∷ y ∷ a) b r l m h e = rw e (omega arith)

-- A string that has a prefix of its own length is the prefix.
append-eq-prefix : (b w : List ℕ) (n : ℕ) → b ≡ w ++ drop n b → n ≡ length b → b ≡ w
append-eq-prefix b w n e h =
    b
    ≡⟨ e ⟩ w ++ drop n b
    ≡⟨ ap (λ k. w ++ drop k b) h ⟩ w ++ drop (length b) b
    ≡⟨ ap (λ k. w ++ k) (drop-length b) ⟩ w ++ []
    ≡⟨ append-nil w ⟩ w ∎

-- A match in the table is the word itself.
match-name :
    (str : List ℕ) (len : ℕ) (p : KvPair)
    → 2 ≤ len
    → len ≤ length str
    → NoNul (take len str)
    → get_or wordlist (hash str len) none ≡ some p
    → strncmp_eq len str p.name ≡ true
    → p.name ≡ take len str
match-name str zero p two l n e s = absurd (omega arith)
match-name str (suc zero) p two l n e s = absurd (omega arith)
match-name str (suc (suc k)) p two l n e s =
    let prefix = strncmp_eq_prefix (suc (suc k)) str p.name l n s in
    let fit = entry-fits wordlist 0 (hash str (suc (suc k))) p wordlist-EntriesFit e in
    append-eq-prefix p.name _ (suc (suc k)) prefix
      (omega (arith, fit.0, hash-prefix str p.name _ k (length p.name) l prefix))

match_pair-eq-some :
    (str : List ℕ) (len : ℕ) (o : Option KvPair) (t : TokenType)
    → match_pair str len o ≡ some t
    → (p : KvPair) × (o ≡ some p) × (strncmp_eq len str p.name ≡ true) × (p.typ ≡ t)
unfolding match_pair
match_pair-eq-some str len none t e = absurd (cc)
match_pair-eq-some str len (some p) t e = elim (Bool-cases (strncmp_eq len str p.name)) [
  | inl same ↦ let h : some p.typ ≡ some t = rw same at e in (p, refl, same, cc)
  | inr other ↦ let h : none ≡ some t = rw other at e in absurd (cc)
]

kmap_lookup-eq-some :
    (str : List ℕ) (len : ℕ) (t : TokenType)
    → kmap_lookup str len ≡ some t
    → (2 ≤ len) × (match_pair str len (get_or wordlist (hash str len) none) ≡ some t)
unfolding kmap_lookup
kmap_lookup-eq-some str len t e = (ground arith, ground arith)

-- Every answer of `kmap_lookup` is the answer of the list.
kmap_lookup_sound :
    (str : List ℕ) (len : ℕ) (t : TokenType)
    → len ≤ length str
    → NoNul (take len str)
    → kmap_lookup str len ≡ some t
    → find_keyword keywords (take len str) ≡ some t
kmap_lookup_sound str len t l n e =
    let (two, matched) = kmap_lookup-eq-some str len t e in
    let (p, found, same, typ) = match_pair-eq-some str len _ t matched in
    let fit = (entry-fits wordlist 0 (hash str len) p wordlist-EntriesFit found).1 in
    rw (match-name str len p two l n found same, typ) at fit

-- `kmap_lookup` computes the search of keywords.txt: for a word of `len` bytes other than NUL, read
-- through a pointer behind which at least those bytes stand, it gives the token type of the list's
-- line for that word, and nothing if the list has no such line.
pub kmap_lookup_lem :
    (str : List ℕ) (len : ℕ)
    → len ≤ length str
    → NoNul (take len str)
    → kmap_lookup str len ≡ find_keyword keywords (take len str)
kmap_lookup_lem str len l n = elim (Option-cases (kmap_lookup str len)) [
  | inr (t, e) ↦ e ∙ sym (kmap_lookup_sound str len t l n e)
  | inl e ↦ elim (Option-cases (find_keyword keywords (take len str))) [
    | inl e' ↦ e ∙ sym e'
    | inr (t, e') ↦
        let found = find-Found keywords (take len str) (drop len str) t keywords-Found e' in
        let width : length (take len str) ≡ len = omega (arith, length-take len str) in
        absurd (cc (take-append-drop len str))
  ]
]
