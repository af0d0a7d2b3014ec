-- ===== src/Parser/Actions.antt =====
-- What the functions of src/parser.c do to the parser: its state, exceptions, and the channel operations.
--
-- The channel is the list of the tokens that are yet to be received from it: the parser waits for a token
-- that is not there yet, and the scanner's thread sends each token once. `Throw` leaves the state as it
-- is. The messages of `usererror` go to the log, and their number is kept. `aborted` is an assertion that
-- fails, other than the one in `GetNextToken`, which is `past_eof`.
use Prim.Native.Nat.{min}
use lemon.Base.{
  not, ◌^◌, ℕ, ◌+◌, ◌*◌, ◌-◌, Bool, true, false, ◌&&◌, ◌||◌, Option, none, some, List, [], ◌∷◌,
  ◌==◌, leb, if◌then◌else◌, take,
}
use lemon.Parser.Tree.{CString}
use lemon.Scanner.Chars.{is_digit}
use lemon.Token.{
  TokenType, enum_value, Ptr, Token, invalid, eof, struct_kw, let_kw, left_brace, return_kw,
  switch_kw,
}

-- `LONG_MAX`, which is `LLONG_MAX` here
abbrev pub long_max : ℕ
long_max = 2 ^ 63 - 1

-- `struct parser`, less the tree that `RecursiveDescent` builds
pub record Parser : Type 0 where
  pub tok : Token
  pub rest : List Token
  pub errors : ℕ

pub data Result {ℓ} (A : Type ℓ) : Type ℓ where
  ok : A → Parser → Result A
  thrown : Parser → Result A
  aborted past_eof out_of_fuel : Result A

abbrev pub Action {ℓ} : Type ℓ → Type ℓ
Action A = Parser → Result A

module _ {ℓ} {A : Type ℓ} where
  abbrev pub pure : A → Action A
  pure a s = ok a s

  abbrev pub gets : (Parser → A) → Action A
  gets f s = ok (f s) s

  abbrev pub abort : Action A
  abort s = aborted

  -- `usererror` with `Throw(XXPARSE)` behind it
  abbrev pub throw_error : Action A
  throw_error s = thrown (record s { errors = s.errors + 1 })

module _ {ℓ κ} {A : Type ℓ} {B : Type κ} where
  abbrev pub bind : Result A → (A → Action B) → Result B
  bind (ok a s) f = f a s
  bind (thrown s) f = thrown s
  bind aborted f = aborted
  bind past_eof f = past_eof
  bind out_of_fuel f = out_of_fuel

  infixl 5 ◌>>=◌ ◌>>◌
  abbrev pub ◌>>=◌ : Action A → (A → Action B) → Action B
  ◌>>=◌ m f s = bind (m s) f

  abbrev pub ◌>>◌ : Action A → Action B → Action B
  ◌>>◌ m k = m >>= λ _. k

-- a branch on the type of the current token
module _ {ℓ} {A : Type ℓ} where
  abbrev pub pick : Bool → Action A → Action A → Action A
  pick true m n = m
  pick false m n = n

  abbrev pub on_any : (TokenType → Bool) → Action A → Action A → Action A
  on_any q m n s = pick (q s.tok.type) m n s

abbrev pub same_type : TokenType → TokenType → Bool
same_type t u = enum_value u == enum_value t

abbrev pub on {ℓ} : {A : Type ℓ} → TokenType → Action A → Action A → Action A
on t m n = on_any (same_type t) m n

-- the range `a ... b` of a switch
abbrev pub in_range : TokenType → TokenType → TokenType → Bool
in_range a b t = leb (enum_value a) (enum_value t) && leb (enum_value t) (enum_value b)

-- `assert(self->tok.type == t)`
abbrev pub assert_token : TokenType → Action (Unit {0})
assert_token t = on t (pure tt) abort

abbrev pub line : Action ℕ
line = gets (λ s. s.tok.line)

abbrev pub current_type : Action TokenType
current_type = gets (λ s. s.tok.type)

-- `cStringFromLexeme`, with the assertion that the token has a lexeme
unfoldable pub lexeme_of : Option Ptr → ℕ → Action CString
lexeme_of none len = abort
lexeme_of (some p) len = pure (take len p.text)

unfoldable pub lexeme : Action CString
lexeme s = lexeme_of s.tok.view s.tok.len s

-- `GetNextToken`
unfoldable pub receive : List Token → ℕ → Result (Unit {0})
receive [] errors = past_eof
receive (t ∷ rest) errors = ok tt (record { tok = t; rest = rest; errors = errors })

unfoldable pub get_next_token : Action (Unit {0})
get_next_token s = receive s.rest s.errors

-- where `Synchronize` stops
unfoldable pub is_sequence_point : Bool → TokenType → Bool
is_sequence_point module_level t =
    same_type eof t
    || in_range struct_kw let_kw t
    || (not module_level && (same_type left_brace t || in_range return_kw switch_kw t))

-- `ReportInvalidToken`, by whether there is a lexeme: the errors after it
unfoldable pub report_invalid_token : Token → ℕ → Option ℕ
report_invalid_token t errors = elim t.view [ none ↦ none | some p ↦ some (errors + 1) ]

-- what `Synchronize` does at a token that is no sequence point
unfoldable pub skip_token : Token → ℕ → Option ℕ
skip_token t errors =
    if same_type invalid t.type then report_invalid_token t errors else some errors

-- one round of the loop of `Synchronize`, with the rounds that follow it
unfoldable pub sync_round :
    Bool → Token → List Token → ℕ → (ℕ → Result (Unit {0})) → Result (Unit {0})
sync_round module_level t rest errors next =
    if is_sequence_point module_level t.type
    then ok tt (record { tok = t; rest = rest; errors = errors })
    else elim (skip_token t errors) [ none ↦ aborted | some errors' ↦ next errors' ]

unfoldable pub synchronize_from : Bool → Token → List Token → ℕ → Result (Unit {0})
synchronize_from module_level t [] errors =
    sync_round module_level t [] errors (λ errors'. past_eof)
synchronize_from module_level t (u ∷ rest) errors =
    sync_round module_level t (u ∷ rest) errors (synchronize_from module_level u rest)

-- `Synchronize`; its callers drop the count that it returns
unfoldable pub synchronize : Bool → Action (Unit {0})
synchronize module_level s = synchronize_from module_level s.tok s.rest s.errors

-- `GetNextValidToken`
unfoldable pub get_next : Action (Unit {0})
get_next = do get_next_token; on invalid (synchronize false) (pure tt)

-- `CheckToken`, by its macros `check`, `check_move`, `move_check` and `move_check_move`
unfoldable pub check : TokenType → Action (Unit {0})
check t = on t (pure tt) throw_error

unfoldable pub check_move : TokenType → Action (Unit {0})
check_move t = do check t; get_next

unfoldable pub move_check : TokenType → Action (Unit {0})
move_check t = do get_next; check t

unfoldable pub move_check_move : TokenType → Action (Unit {0})
move_check_move t = do get_next; check_move t

-- `Try` with `Synchronize` in its `Catch`: what was read, if nothing was thrown
unfoldable pub recovered {ℓ} : {A : Type ℓ} → Bool → Result A → Result (Option A)
recovered module_level (ok a s) = ok (some a) s
recovered module_level (thrown s) = bind (synchronize module_level s) (λ _. pure none)
recovered module_level aborted = aborted
recovered module_level past_eof = past_eof
recovered module_level out_of_fuel = out_of_fuel

abbrev pub attempt {ℓ} : {A : Type ℓ} → Bool → Action A → Action (Option A)
attempt module_level m s = recovered module_level (m s)

-- `strtoll` with base 10, on what the digits say up to the first other character, saturated
unfoldable pub strtoll : List ℕ → ℕ → ℕ × List ℕ
strtoll [] n = (n, [])
strtoll (c ∷ cs) n =
    let more = strtoll cs (min (n * 10 + (c - b'0')) long_max) in
    if is_digit c then more else (n, c ∷ cs)

-- `ExtractArrayIndex`
unfoldable pub array_index_of : ℕ × List ℕ → Action ℕ
array_index_of (n, []) = if n == long_max then throw_error else pure n
array_index_of (n, c ∷ cs) = throw_error

unfoldable pub extract_array_index : Action ℕ
extract_array_index = do digits ← lexeme; array_index_of (strtoll digits 0)

-- all that a run computes with
unfoldable pub running : Unit {0}
unfolding lexeme_of lexeme receive get_next_token is_sequence_point report_invalid_token skip_token
    sync_round synchronize_from synchronize get_next check check_move move_check move_check_move
    recovered strtoll array_index_of extract_array_index lemon.Scanner.Chars.is_digit
running = tt
