-- ===== src/Token.antt =====
-- src/scanner.h: the token types, a token, and the pointers into the source text that tokens carry.
use lemon.Base.{ℕ, ◌+◌, Bool, Option, List, [], ◌∷◌, drop}

-- `enum token_type`. Where the source has a keyword's name in capitals, the name here ends in `_kw`.
pub data TokenType : Type 0 where
  invalid eof identifier : TokenType
  literal_int literal_float literal_str : TokenType
  semicolon left_bracket right_bracket left_paren right_paren left_brace right_brace : TokenType
  dot tilde comma colon : TokenType
  equal equal_equal not_equal logical_not logical_and logical_or : TokenType
  bitwise_not ampersand bitwise_or bitwise_xor lshift rshift : TokenType
  greater geq less leq plus minus star slash modulo : TokenType
  struct_kw func_kw method_kw let_kw : TokenType
  return_kw break_kw continue_kw goto_kw for_kw while_kw if_kw switch_kw : TokenType
  else_kw case_kw default_kw fallthrough_kw label_kw mut_kw null_kw true_kw false_kw : TokenType
  pub_kw self_kw void_kw import_kw : TokenType

-- the number of a token type
abbrev pub enum_value : TokenType → ℕ
enum_value invalid = 0
enum_value eof = 1
enum_value identifier = 2
enum_value literal_int = 3
enum_value literal_float = 4
enum_value literal_str = 5
enum_value semicolon = 6
enum_value left_bracket = 7
enum_value right_bracket = 8
enum_value left_paren = 9
enum_value right_paren = 10
enum_value left_brace = 11
enum_value right_brace = 12
enum_value dot = 13
enum_value tilde = 14
enum_value comma = 15
enum_value colon = 16
enum_value equal = 17
enum_value equal_equal = 18
enum_value not_equal = 19
enum_value logical_not = 20
enum_value logical_and = 21
enum_value logical_or = 22
enum_value bitwise_not = 23
enum_value ampersand = 24
enum_value bitwise_or = 25
enum_value bitwise_xor = 26
enum_value lshift = 27
enum_value rshift = 28
enum_value greater = 29
enum_value geq = 30
enum_value less = 31
enum_value leq = 32
enum_value plus = 33
enum_value minus = 34
enum_value star = 35
enum_value slash = 36
enum_value modulo = 37
enum_value struct_kw = 38
enum_value func_kw = 39
enum_value method_kw = 40
enum_value let_kw = 41
enum_value return_kw = 42
enum_value break_kw = 43
enum_value continue_kw = 44
enum_value goto_kw = 45
enum_value for_kw = 46
enum_value while_kw = 47
enum_value if_kw = 48
enum_value switch_kw = 49
enum_value else_kw = 50
enum_value case_kw = 51
enum_value default_kw = 52
enum_value fallthrough_kw = 53
enum_value label_kw = 54
enum_value mut_kw = 55
enum_value null_kw = 56
enum_value true_kw = 57
enum_value false_kw = 58
enum_value pub_kw = 59
enum_value self_kw = 60
enum_value void_kw = 61
enum_value import_kw = 62

-- A `char *` into the source: its offset, and the text from there to the end of the string. The
-- terminating NUL is the end of the list.
pub record Ptr : Type 0 where
  pub at : ℕ
  pub text : List ℕ

-- `*p`
abbrev pub deref : List ℕ → ℕ
deref [] = 0
deref (c ∷ _) = c

-- `p + n`
abbrev pub plus_ptr : Ptr → ℕ → Ptr
plus_ptr p n = record { at = p.at + n; text = drop n p.text }

-- `struct token`, its lexeme and flags flattened
pub record Token : Type 0 where
  pub view : Option Ptr
  pub len : ℕ
  pub type : TokenType
  pub line : ℕ
  pub valid : Bool
  pub bad_string : Bool
