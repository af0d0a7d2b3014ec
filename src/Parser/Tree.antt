-- ===== src/Parser/Tree.antt =====
-- The syntax tree of src/parser.h. The `symbol *entry` members, which the parser leaves null for the
-- resolver, and the scratch members of a module are left out. A vector is a list of its elements, a
-- pointer that may be null a type of its own.
use lemon.Base.{ℕ, Bool, List, Option}
use lemon.Token.{TokenType}

abbrev pub CString : Type 0
CString = List ℕ

-- `struct type`; each constructor ends with the line
pub data TypeNode : Type 0 where
  base : CString → ℕ → TypeNode
  named : CString → TypeNode → ℕ → TypeNode
  pointer : TypeNode → ℕ → TypeNode
  array : TypeNode → ℕ → ℕ → TypeNode

-- `struct expr`, by its tags, with `vector(Expr)`
mutual
  pub data Expr : Type 0 where
    assignment : Expr → Expr → ℕ → Expr
    binary : Expr → Expr → TokenType → ℕ → Expr
    unary : Expr → TokenType → ℕ → Expr
    cast : Expr → TypeNode → ℕ → Expr
    call : Expr → Exprs → ℕ → Expr
    selector : Expr → Expr → ℕ → Expr
    index : Expr → Expr → ℕ → Expr
    arraylit : List (Option ℕ) → Exprs → ℕ → Expr
    rvarlit : CString → Exprs → ℕ → Expr
    lit : CString → TokenType → ℕ → Expr
    ident : CString → ℕ → Expr

  pub data Exprs : Type 0 where
    no_exprs : Exprs
    expr_then : Expr → Exprs → Exprs

-- `struct member` and `struct param`
pub record Member : Type 0 where
  pub name : CString
  pub typ : TypeNode
  pub line : ℕ
  pub public : Bool

pub record Param : Type 0 where
  pub name : CString
  pub typ : TypeNode
  pub line : ℕ
  pub mutable : Bool

-- `struct decl`, `struct stmt`, `struct fiat` and `struct test`, with their vectors
mutual
  pub data Decl : Type 0 where
    udt : CString → List Member → Bool → ℕ → Decl
    function : CString → Option TypeNode → Stmt → List Param → Bool → ℕ → Decl
    method : CString → Option TypeNode → TypeNode → Stmt → List Param → Bool → ℕ → Decl
    variable : CString → TypeNode → Expr → Bool → Bool → ℕ → Decl

  pub data Stmt : Type 0 where
    exprstmt : Expr → ℕ → Stmt
    block : Fiats → ℕ → Stmt
    forloop : ForInit → Expr → Expr → Stmt → ℕ → Stmt
    whileloop : Expr → Stmt → ℕ → Stmt
    switchstmt : Expr → Tests → ℕ → Stmt
    branch : ShortVar → Expr → Stmt → Fail → ℕ → Stmt
    returnstmt : Option Expr → ℕ → Stmt
    breakstmt continuestmt fallthroughstmt : ℕ → Stmt
    gotolabel : CString → ℕ → Stmt
    label : CString → Stmt → ℕ → Stmt

  pub data Fiats : Type 0 where
    no_fiats : Fiats
    decl_then : Decl → Fiats → Fiats
    stmt_then : Stmt → Fiats → Fiats

  -- the cases of a switch; the default case has no condition
  pub data Tests : Type 0 where
    no_tests : Tests
    test_then : Option Expr → Stmt → Tests → Tests

  pub data ForInit : Type 0 where
    for_decl : Decl → ForInit
    for_init : Expr → ForInit

  pub data ShortVar : Type 0 where
    no_shortvar : ShortVar
    shortvar : Decl → ShortVar

  pub data Fail : Type 0 where
    no_fail : Fail
    fail : Stmt → Fail

-- `struct import`
pub record Import : Type 0 where
  pub alias : CString
  pub line : ℕ

-- `struct module`
pub record Module : Type 0 where
  pub imports : List Import
  pub declarations : List Decl
  pub alias : CString
