-- ===== src/Parser/Tokens.antt =====
-- The channel operations of src/parser.c: they never read behind the end of the text, and take a token.
use lemon.Base.{
  ℕ, ◌+◌, ◌≤◌, ◌<◌, ◌≡◌, refl, sym, ap, ◌∙◌, ◌⊎◌, inl, inr, Bool, true, false, Bool-cases, Option,
  none, some, List, [], ◌∷◌, length, arith, if◌then◌else◌, ◌==◌,
}
use lemon.Parser.Actions.{
  Parser, Result, ok, thrown, aborted, past_eof, out_of_fuel, Action, pure, throw_error, bind, ◌>>◌,
  on, same_type, assert_token, is_sequence_point, report_invalid_token, skip_token, sync_round,
  synchronize_from, synchronize, receive, get_next_token, get_next, check, check_move, move_check,
  move_check_move, extract_array_index, array_index_of, long_max, strtoll,
}
use lemon.Parser.Runs.{
  HasEof, Ready, After, Runs, takes, keeps, stay_then, take_on, pure-Runs, throw-Runs, branch-Runs,
  lexeme-Stays,
}
use lemon.Token.{TokenType, Ptr, Token, eof, invalid}

-- the end of the text is a sequence point
pub eof_is_sequence_point : (level : Bool) → is_sequence_point level eof ≡ true
unfolding is_sequence_point
eof_is_sequence_point level = refl

skip_token-le :
    (t : Token) (errors : ℕ) (errors' : ℕ) → skip_token t errors ≡ some errors' → errors ≤ errors'
unfolding skip_token report_invalid_token
skip_token-le t errors errors' e = elim (Bool-cases (same_type invalid t.type)) [
  | inl i ↦ reported t.view (rw i at e)
  | inr i ↦ let same : some errors ≡ some errors' = rw i at e in ground arith
]
  where
    reported :
        (v : Option Ptr)
        → (elim v [ none ↦ none | some p ↦ some (errors + 1) ]) ≡ some errors'
        → errors ≤ errors'
    reported none e' = absurd (cc)
    reported (some p) e' = ground arith

-- how `Synchronize` ends, from a token on: at a sequence point; and if the token is none itself, tokens
-- were taken
abbrev pub Synced : Bool → Token → List Token → ℕ → Result (Unit {0}) → Type 0
Synced level t rest errors (ok _ s) =
    Ready s
    × (errors ≤ s.errors)
    × (is_sequence_point level s.tok.type ≡ true)
    × ((length s.rest < length rest)
        ⊎ ((is_sequence_point level t.type ≡ true) × (s.tok ≡ t) × (s.rest ≡ rest)))
Synced level t rest errors (thrown s) = ⊥
Synced level t rest errors aborted = Unit
Synced level t rest errors past_eof = ⊥
Synced level t rest errors out_of_fuel = ⊥

sync_round-Synced :
    (level : Bool) (t : Token) (rest : List Token) (errors : ℕ) (next : ℕ → Result (Unit {0}))
    → HasEof (t ∷ rest)
    → (is_sequence_point level t.type ≡ false
        → (errors' : ℕ) → errors ≤ errors'
        → Synced level t rest errors (next errors'))
    → Synced level t rest errors (sync_round level t rest errors next)
unfolding sync_round
sync_round-Synced level t rest errors next ends later =
    elim (Bool-cases (is_sequence_point level t.type)) [
      | inl stop ↦ rw stop (ends, omega arith, stop, inr (stop, refl, refl))
      | inr on_way ↦ rw on_way (skipped (skip_token t errors) refl on_way)
    ]
  where
    skipped :
        (o : Option ℕ)
        → skip_token t errors ≡ o
        → is_sequence_point level t.type ≡ false
        → Synced level t rest errors (elim o [ none ↦ aborted | some errors' ↦ next errors' ])
    skipped none e on_way = tt
    skipped (some errors') e on_way = later on_way errors' (skip_token-le t errors errors' e)

pub synchronize_from-Synced :
    (level : Bool) (t : Token) (rest : List Token) (errors : ℕ)
    → HasEof (t ∷ rest)
    → Synced level t rest errors (synchronize_from level t rest errors)
unfolding synchronize_from
synchronize_from-Synced level t [] errors ends =
    sync_round-Synced level t [] errors _ ends (λ on_way errors' le. elim ends [
      | inl is ↦ cc (sym on_way ∙ ap (is_sequence_point level) is ∙ eof_is_sequence_point level)
      | inr nothing ↦ absurd nothing
    ])
synchronize_from-Synced level t (u ∷ rest) errors ends =
    sync_round-Synced level t (u ∷ rest) errors _ ends (λ on_way errors' le. elim ends [
      | inl is ↦
          absurd (cc (sym on_way ∙ ap (is_sequence_point level) is ∙ eof_is_sequence_point level))
      | inr further ↦ onwards errors' le _ (synchronize_from-Synced level u rest errors' further)
    ])
  where
    onwards :
        (errors' : ℕ)
        → errors ≤ errors'
        → (r : Result (Unit {0})) → Synced level u rest errors' r
        → Synced level t (u ∷ rest) errors r
    onwards errors' le (ok _ s) (ready, more, stop, inl less) =
        (ready, omega arith, stop, inl (omega arith))
    onwards errors' le (ok _ s) (ready, more, stop, inr (_, _, same)) = (
      ready,
      omega arith,
      stop,
      inl (let e : length s.rest ≡ length rest = ap length same in omega arith),
    )
    onwards errors' le (thrown s) h = h
    onwards errors' le aborted h = h
    onwards errors' le past_eof h = h
    onwards errors' le out_of_fuel h = h

-- `GetNextValidToken` takes a token, at any token but the end of the text.
pub get_next-Runs : {q : TokenType → Bool} {k : ℕ} → q eof ≡ false → Runs q true true k get_next
unfolding get_next get_next_token synchronize receive
get_next-Runs {q} not_eof = record {
  run = λ s r lt at. elim r [
    | inl is ↦ absurd (cc (sym at ∙ ap q is ∙ not_eof))
    | inr further ↦ received s s.rest refl further
  ];
}
  where
    synced :
        (s : Parser) (t : Token) (rest : List Token)
        → length rest < length s.rest
        → (r : Result (Unit {0})) → Synced false t rest s.errors r
        → After true true s r
    synced s t rest less (ok _ s') (ready, more, stop, inl less') = record {
      ready = ready;
      errors = more;
      taken = inl (omega arith);
    }
    synced s t rest less (ok _ s') (ready, more, stop, inr (_, _, same)) = record {
      ready = ready;
      errors = more;
      taken = inl (let e : length s'.rest ≡ length rest = ap length same in omega arith);
    }
    synced s t rest less (thrown s') h = absurd h
    synced s t rest less aborted h = tt
    synced s t rest less past_eof h = h
    synced s t rest less out_of_fuel h = h

    received :
        (s : Parser) (rest : List Token)
        → s.rest ≡ rest
        → HasEof rest
        → After true true s
            (bind (receive rest s.errors) (λ _. on invalid (synchronize false) (pure tt)))
    received s [] e h = absurd h
    received s (t ∷ rest) e ends =
        let less : length rest < length s.rest = rw e (omega arith) in
        elim (Bool-cases (same_type invalid t.type)) [
          | inl i ↦
              rw i (synced s t rest less _ (synchronize_from-Synced false t rest s.errors ends))
          | inr i ↦ rw i (record { ready = ends; errors = omega arith; taken = inl less })
        ]

pub get_next_keeps : {q : TokenType → Bool} {k : ℕ} → q eof ≡ false → Runs q false false k get_next
get_next_keeps {q} {k} not_eof = keeps (get_next-Runs {q = q} {k = k} not_eof)

pub assert_then {ℓ} :
    {A : Type ℓ} {q : TokenType → Bool} {k : ℕ} {o t : Bool} {n : Action A} (u : TokenType)
    → Runs (same_type u) o t k n
    → Runs q o t k (assert_token u >> n)
assert_then u h = record {
  run = λ s r lt at. elim (Bool-cases (same_type u s.tok.type)) [
    | inl e ↦ rw e (h.run s r lt e)
    | inr e ↦ rw e tt
  ];
}

pub check-Runs : {q : TokenType → Bool} {k : ℕ} (t : TokenType) → Runs q false false k (check t)
unfolding check
check-Runs t = branch-Runs pure-Runs throw-Runs

-- `check_move` of a token that does not end the text
pub check_move-Runs :
    {q : TokenType → Bool} {k : ℕ} (t : TokenType)
    → same_type t eof ≡ false
    → Runs q true false k (check_move t)
unfolding check_move check
check_move-Runs {q} {k} t not_eof = record {
  run = λ s r lt at. elim (Bool-cases (same_type t s.tok.type)) [
    | inl e ↦ rw e ((takes (get_next-Runs {q = same_type t} {k = k} not_eof)).run s r lt e)
    | inr e ↦ rw e ((throw-Runs {A = Unit {0}} {q = q} {k = k} {o = false}).run s r lt at)
  ];
}

pub move_check-Runs :
    {q : TokenType → Bool} {k : ℕ} (t : TokenType)
    → q eof ≡ false
    → Runs q true true k (move_check t)
unfolding move_check
move_check-Runs {k} t not_eof = take_on k (get_next-Runs not_eof) (λ _. check-Runs t)

pub move_check_move-Runs :
    {q : TokenType → Bool} {k : ℕ} (t : TokenType)
    → q eof ≡ false
    → same_type t eof ≡ false
    → Runs q true true k (move_check_move t)
unfolding move_check_move
move_check_move-Runs {k} t not_eof not_eof' =
    take_on k (get_next-Runs not_eof) (λ _. keeps (check_move-Runs t not_eof'))

array_index_of-Runs :
    {q : TokenType → Bool} {k : ℕ} (p : ℕ × List ℕ) → Runs q false false k (array_index_of p)
unfolding array_index_of
array_index_of-Runs {q} {k} (n, []) = pick_if (n == long_max)
  where
    pick_if : (b : Bool) → Runs q false false k (if b then throw_error else pure n)
    pick_if true = throw-Runs
    pick_if false = pure-Runs
array_index_of-Runs (n, c ∷ cs) = throw-Runs

pub extract_array_index-Runs :
    {q : TokenType → Bool} {k : ℕ} → Runs q false false k extract_array_index
unfolding extract_array_index
extract_array_index-Runs = stay_then lexeme-Stays (λ digits. array_index_of-Runs (strtoll digits 0))
