-- ===== src/Keywords/Table.antt =====
-- The tables of src/assets/kmap.c and src/assets/keywords.txt.
use lemon.Base.{ℕ, Option, none, some, List, [], ◌∷◌, codes}
use lemon.Token.{
  TokenType, break_kw, case_kw, continue_kw, default_kw, else_kw, fallthrough_kw, false_kw, for_kw,
  func_kw, goto_kw, if_kw, import_kw, label_kw, let_kw, method_kw, mut_kw, null_kw, pub_kw,
  return_kw, self_kw, struct_kw, switch_kw, true_kw, void_kw, while_kw,
}

-- `struct kv_pair`
pub record KvPair : Type 0 where
  pub name : List ℕ
  pub typ : TokenType

abbrev pub kv : List ℕ → TokenType → KvPair
kv name typ = record { name = name; typ = typ }

-- `asso_values`
unfoldable pub asso_values : List ℕ
asso_values =
    40 ∷ 40 ∷ 40 ∷ 40 ∷ 40 ∷ 40 ∷ 40 ∷ 40 ∷ 40 ∷ 40 ∷ 40 ∷ 40 ∷ 40 ∷ 40 ∷ 40 ∷ 40 ∷ 40 ∷ 40 ∷ 40
    ∷ 40 ∷ 40 ∷ 40 ∷ 40 ∷ 40 ∷ 40 ∷ 40 ∷ 40 ∷ 40 ∷ 40 ∷ 40 ∷ 40 ∷ 40 ∷ 40 ∷ 40 ∷ 40 ∷ 40 ∷ 40 ∷ 40
    ∷ 40 ∷ 40 ∷ 40 ∷ 40 ∷ 40 ∷ 40 ∷ 40 ∷ 40 ∷ 40 ∷ 40 ∷ 40 ∷ 40 ∷ 40 ∷ 40 ∷ 40 ∷ 40 ∷ 40 ∷ 40 ∷ 40
    ∷ 40 ∷ 40 ∷ 40 ∷ 40 ∷ 40 ∷ 40 ∷ 40 ∷ 40 ∷ 40 ∷ 40 ∷ 40 ∷ 40 ∷ 40 ∷ 40 ∷ 40 ∷ 40 ∷ 40 ∷ 40 ∷ 40
    ∷ 40 ∷ 40 ∷ 40 ∷ 40 ∷ 40 ∷ 40 ∷ 40 ∷ 40 ∷ 40 ∷ 40 ∷ 40 ∷ 40 ∷ 40 ∷ 40 ∷ 40 ∷ 40 ∷ 40 ∷ 40 ∷ 40
    ∷ 40 ∷ 40 ∷ 0 ∷ 0 ∷ 20 ∷ 0 ∷ 0 ∷ 5 ∷ 30 ∷ 0 ∷ 20 ∷ 40 ∷ 40 ∷ 0 ∷ 0 ∷ 25 ∷ 5 ∷ 10 ∷ 40 ∷ 15 ∷ 5
    ∷ 0 ∷ 5 ∷ 20 ∷ 20 ∷ 40 ∷ 40 ∷ 40 ∷ 40 ∷ 40 ∷ 40 ∷ 40 ∷ 40 ∷ 40 ∷ 40 ∷ 40 ∷ 40 ∷ 40 ∷ 40 ∷ 40
    ∷ 40 ∷ 40 ∷ 40 ∷ 40 ∷ 40 ∷ 40 ∷ 40 ∷ 40 ∷ 40 ∷ 40 ∷ 40 ∷ 40 ∷ 40 ∷ 40 ∷ 40 ∷ 40 ∷ 40 ∷ 40 ∷ 40
    ∷ 40 ∷ 40 ∷ 40 ∷ 40 ∷ 40 ∷ 40 ∷ 40 ∷ 40 ∷ 40 ∷ 40 ∷ 40 ∷ 40 ∷ 40 ∷ 40 ∷ 40 ∷ 40 ∷ 40 ∷ 40 ∷ 40
    ∷ 40 ∷ 40 ∷ 40 ∷ 40 ∷ 40 ∷ 40 ∷ 40 ∷ 40 ∷ 40 ∷ 40 ∷ 40 ∷ 40 ∷ 40 ∷ 40 ∷ 40 ∷ 40 ∷ 40 ∷ 40 ∷ 40
    ∷ 40 ∷ 40 ∷ 40 ∷ 40 ∷ 40 ∷ 40 ∷ 40 ∷ 40 ∷ 40 ∷ 40 ∷ 40 ∷ 40 ∷ 40 ∷ 40 ∷ 40 ∷ 40 ∷ 40 ∷ 40 ∷ 40
    ∷ 40 ∷ 40 ∷ 40 ∷ 40 ∷ 40 ∷ 40 ∷ 40 ∷ 40 ∷ 40 ∷ 40 ∷ 40 ∷ 40 ∷ 40 ∷ 40 ∷ 40 ∷ 40 ∷ 40 ∷ 40 ∷ 40
    ∷ 40 ∷ 40 ∷ 40 ∷ 40 ∷ 40 ∷ 40 ∷ 40 ∷ 40 ∷ 40 ∷ 40 ∷ 40 ∷ 40 ∷ 40 ∷ 40 ∷ 40 ∷ 40 ∷ 40 ∷ 40 ∷ 40
    ∷ 40 ∷ 40 ∷ 40 ∷ 40 ∷ 40 ∷ 40 ∷ 40 ∷ []

-- `wordlist`
unfoldable pub wordlist : List (Option KvPair)
wordlist =
    none
    ∷ none
    ∷ none
    ∷ some (kv (codes "let") let_kw)
    ∷ some (kv (codes "else") else_kw)
    ∷ some (kv (codes "label") label_kw)
    ∷ some (kv (codes "method") method_kw)
    ∷ some (kv (codes "default") default_kw)
    ∷ some (kv (codes "mut") mut_kw)
    ∷ some (kv (codes "self") self_kw)
    ∷ some (kv (codes "false") false_kw)
    ∷ some (kv (codes "struct") struct_kw)
    ∷ none
    ∷ some (kv (codes "for") for_kw)
    ∷ some (kv (codes "func") func_kw)
    ∷ none
    ∷ some (kv (codes "fallthrough") fallthrough_kw)
    ∷ none
    ∷ some (kv (codes "pub") pub_kw)
    ∷ some (kv (codes "true") true_kw)
    ∷ some (kv (codes "break") break_kw)
    ∷ some (kv (codes "return") return_kw)
    ∷ none
    ∷ none
    ∷ some (kv (codes "case") case_kw)
    ∷ some (kv (codes "while") while_kw)
    ∷ some (kv (codes "import") import_kw)
    ∷ some (kv (codes "if") if_kw)
    ∷ none
    ∷ some (kv (codes "void") void_kw)
    ∷ none
    ∷ some (kv (codes "switch") switch_kw)
    ∷ none
    ∷ some (kv (codes "continue") continue_kw)
    ∷ some (kv (codes "null") null_kw)
    ∷ none
    ∷ none
    ∷ none
    ∷ none
    ∷ some (kv (codes "goto") goto_kw)
    ∷ []

-- the lines of keywords.txt
unfoldable pub keywords : List KvPair
keywords =
    kv (codes "for") for_kw
    ∷ kv (codes "while") while_kw
    ∷ kv (codes "break") break_kw
    ∷ kv (codes "continue") continue_kw
    ∷ kv (codes "if") if_kw
    ∷ kv (codes "else") else_kw
    ∷ kv (codes "switch") switch_kw
    ∷ kv (codes "case") case_kw
    ∷ kv (codes "default") default_kw
    ∷ kv (codes "fallthrough") fallthrough_kw
    ∷ kv (codes "goto") goto_kw
    ∷ kv (codes "label") label_kw
    ∷ kv (codes "let") let_kw
    ∷ kv (codes "mut") mut_kw
    ∷ kv (codes "struct") struct_kw
    ∷ kv (codes "import") import_kw
    ∷ kv (codes "pub") pub_kw
    ∷ kv (codes "func") func_kw
    ∷ kv (codes "method") method_kw
    ∷ kv (codes "return") return_kw
    ∷ kv (codes "null") null_kw
    ∷ kv (codes "void") void_kw
    ∷ kv (codes "self") self_kw
    ∷ kv (codes "true") true_kw
    ∷ kv (codes "false") false_kw
    ∷ []
