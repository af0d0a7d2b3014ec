-- ===== src/Scanner.antt =====
-- src/scanner.c and the scanner's half of src/scanner.h: lexical analysis.
--
-- The scanner's thread owns its state, so its run is a function. What it sends on the channel is
-- kept as the list of the tokens sent; `closed` is set by `TokenChannelClose`. `curr` is a scratch
-- pointer, a local of the consumers here. An assertion that the source text can break ends the run.
pub mod Chars
pub mod Grammar
pub mod Steps
pub mod Numbers
pub mod Words
pub mod Literals
pub mod Progress
pub mod Tokens
pub mod Stream
pub mod Lines
use lemon.Base.{
  ℕ, zero, suc, ◌+◌, ◌≡◌, refl, Bool, true, false, not, ◌&&◌, ◌||◌, Option, none, some, List, [],
  ◌∷◌, ◌++◌, ◌==◌, if◌then◌else◌, length, drop,
}
use lemon.Keywords
use lemon.Keywords.{kmap_lookup}
use lemon.Scanner.Chars.{is_digit, is_letter, is_letter_digit, is_space, is_space_eof, span}
use lemon.Token.{
  TokenType, invalid, eof, identifier, literal_int, literal_float, literal_str, semicolon,
  left_bracket, right_bracket, left_paren, right_paren, left_brace, right_brace, dot, tilde, comma,
  colon, equal, equal_equal, not_equal, logical_not, logical_and, logical_or, bitwise_not,
  ampersand, bitwise_or, bitwise_xor, lshift, rshift, greater, geq, less, leq, plus, minus, star,
  slash, modulo, Ptr, deref, plus_ptr, Token,
}

pub record Scanner : Type 0 where
  pub pos : Ptr
  pub line : ℕ
  pub sent : List Token
  pub closed : Bool

-- the state that `ScannerInit` hands to the new thread
unfoldable pub scanner_init : List ℕ → Scanner
scanner_init src = record {
  pos = record { at = 0; text = src };
  line = 1;
  sent = [];
  closed = false;
}

-- `SendToken`
unfoldable pub send_token : Scanner → Token → Scanner
send_token s t = record s { sent = s.sent ++ t ∷ [] }

-- `SendEOF`
unfoldable pub send_eof : Scanner → Scanner
send_eof s =
    send_token s
      (record { view = none; len = 0; type = eof; line = s.line; valid = true; bad_string = false })

-- a valid token that is read at `pos`
abbrev pub token_at : Scanner → TokenType → ℕ → Token
token_at s type n = record {
  view = some s.pos;
  len = n;
  type = type;
  line = s.line;
  valid = true;
  bad_string = false;
}

-- `Consume`
unfoldable pub consume : Scanner → TokenType → ℕ → Scanner
consume s type n = record (send_token s (token_at s type n)) { pos = plus_ptr s.pos n }

-- `Peek`
unfoldable pub peek : Scanner → ℕ
peek s = deref (drop 1 s.pos.text)

-- `ConsumeIfPeek`; its `assert(ch)` fails at the end of the text
unfoldable pub consume_if_peek : Scanner → ℕ → TokenType → TokenType → Option Scanner
consume_if_peek s next a b =
    let ch = peek s in
    if ch == 0 then none else some (if ch == next then consume s a 2 else consume s b 1)

-- `ConsumeSpace`
unfoldable pub consume_space : Scanner → Scanner
consume_space s = record s {
  line = if deref s.pos.text == b'\n' then s.line + 1 else s.line;
  pos = plus_ptr s.pos 1;
}

-- `ConsumeComment`
unfoldable pub consume_comment : Scanner → Scanner
consume_comment s =
    let n = span (λ c. not (c == 0) && not (c == b'\n')) (drop 1 s.pos.text) in
    record s { pos = plus_ptr s.pos (suc n) }

-- `ConsumeInvalid` with `Synchronize`
unfoldable pub consume_invalid : Scanner → Bool → Scanner
consume_invalid s bad =
    let n = span (λ c. not (is_space_eof c)) s.pos.text in
    record (send_token s (record {
      view = some s.pos;
      len = n;
      type = invalid;
      line = s.line;
      valid = false;
      bad_string = bad;
    })) { pos = plus_ptr s.pos n }

-- the loop of `ConsumeNumber`: the digits and the first dot, and whether a dot was seen
unfoldable pub number_loop : Bool → List ℕ → ℕ × Bool
number_loop seen [] = (0, seen)
number_loop seen (c ∷ cs) =
    let (n, dotted) = number_loop (seen || c == b'.') cs in
    if c == b'.'
    then (if seen then (0, seen) else (suc n, dotted))
    else if is_digit c
    then (suc n, dotted)
    else (0, seen)

-- `ConsumeNumber`
unfoldable pub consume_number : Scanner → Scanner
consume_number s =
    let (n, dotted) = number_loop false (drop 1 s.pos.text) in
    consume s (if dotted then literal_float else literal_int) (suc n)

-- a character inside a string literal
abbrev pub in_string : ℕ → Bool
in_string c = not (c == b'"') && not (c == 0)

-- `ConsumeString`
unfoldable pub consume_string : Scanner → Scanner
consume_string s =
    let curr = plus_ptr s.pos 1 in
    let delta = span in_string curr.text in
    let stop = plus_ptr curr delta in
    if deref stop.text == 0
    then record (consume_invalid s true) { pos = stop }
    else record (send_token s (record {
      view = if delta == 0 then none else some curr;
      len = delta;
      type = literal_str;
      line = s.line;
      valid = true;
      bad_string = false;
    })) { pos = plus_ptr stop 1 }

-- `GetIdentOrKeywordLength`
unfoldable pub word_length : List ℕ → ℕ
word_length text = suc (span is_letter_digit (drop 1 text))

-- `kv ? kv->typ : _IDENTIFIER`
unfoldable pub word_type : Option TokenType → TokenType
word_type none = identifier
word_type (some t) = t

-- `ConsumeIdentOrKeyword`
unfoldable pub consume_word : Scanner → Scanner
consume_word s =
    let n = word_length s.pos.text in consume s (word_type (kmap_lookup s.pos.text n)) n

-- the cases of the switch in `Scan` that consume one character
unfoldable pub singles : List (ℕ × TokenType)
singles =
    (b';', semicolon)
    ∷ (b'[', left_bracket)
    ∷ (b']', right_bracket)
    ∷ (b'(', left_paren)
    ∷ (b')', right_paren)
    ∷ (b'{', left_brace)
    ∷ (b'}', right_brace)
    ∷ (b'.', dot)
    ∷ (b'~', tilde)
    ∷ (b',', comma)
    ∷ (b':', colon)
    ∷ (b'*', star)
    ∷ (b'\'', bitwise_not)
    ∷ (b'^', bitwise_xor)
    ∷ (b'+', plus)
    ∷ (b'-', minus)
    ∷ (b'/', slash)
    ∷ (b'%', modulo)
    ∷ []

unfoldable pub case_of : ℕ → List (ℕ × TokenType) → Option TokenType
case_of c [] = none
case_of c ((d, t) ∷ rows) = if c == d then some t else case_of c rows

-- the last cases of the switch: literals, words, and the default
unfoldable pub step_word : ℕ → Scanner → Scanner
step_word c s =
    if is_digit c
    then consume_number s
    else if c == b'"'
    then consume_string s
    else if is_letter c
    then consume_word s
    else consume_invalid s false

-- the cases that look one character ahead
unfoldable pub step_operator : ℕ → Scanner → Option Scanner
step_operator c s =
    if c == b'='
    then consume_if_peek s b'=' equal_equal equal
    else if c == b'!'
    then consume_if_peek s b'=' not_equal logical_not
    else if c == b'&'
    then consume_if_peek s b'&' logical_and ampersand
    else if c == b'|'
    then consume_if_peek s b'|' logical_or bitwise_or
    else if c == b'<'
    then (if peek s == b'<' then some (consume s lshift 2) else consume_if_peek s b'=' leq less)
    else if c == b'>'
    then (if peek s == b'>' then some (consume s rshift 2) else consume_if_peek s b'=' geq greater)
    else some (step_word c s)

unfoldable pub step_case : Option TokenType → ℕ → Scanner → Option Scanner
step_case (some t) c s = some (consume s t 1)
step_case none c s = step_operator c s

-- the switch of `Scan`, at a character that is not NUL
unfoldable pub step : Scanner → Option Scanner
step s =
    let c = deref s.pos.text in
    if is_space c
    then some (consume_space s)
    else if c == b'#'
    then some (consume_comment s)
    else step_case (case_of c singles) c s

pub data Outcome : Type 0 where
  finished : Scanner → Outcome
  assert_failed out_of_fuel : Outcome

abbrev pub after : Option Scanner → (Scanner → Outcome) → Outcome
after none k = assert_failed
after (some s) k = k s

-- the loop of `Scan`, on fuel
unfoldable pub scan_loop : ℕ → Scanner → Outcome
scan_loop zero s = out_of_fuel
scan_loop (suc fuel) s = elim (deref s.pos.text == 0) [
  | true ↦ finished (record (send_eof s) { closed = true })
  | false ↦ after (step s) (scan_loop fuel)
]

-- `Scan` from the start of a text
unfoldable pub scan : List ℕ → Outcome
scan src = scan_loop (suc (length src)) (scanner_init src)

-- all that a run of the scanner computes with
unfoldable pub running : Unit {0}
unfolding scanner_init send_token send_eof consume peek consume_if_peek consume_space
    consume_comment consume_invalid number_loop consume_number consume_string word_length word_type
    consume_word singles case_of step_word step_operator step_case step scan_loop scan is_digit
    is_letter is_letter_digit is_space is_space_eof span Keywords.running
running = tt
