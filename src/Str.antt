-- ===== src/Str.antt =====
-- The growable strings (`vstring`) of src/lib/str.h: vectors of bytes whose last element is NUL.
--
-- `none` is a failed assertion or an abort. `snprintf` is an argument.
pub mod Texts
pub mod Trim
use lemon.Base.{
  ℕ, zero, suc, ◌+◌, ◌-◌, ◌≡◌, Bool, true, false, Option, none, some, List, [], ◌∷◌, ◌==◌,
  if◌then◌else◌, get_or, take,
}
use lemon.Vector
use lemon.Vector.{Vector, vector_init, vector_push, vector_get, vector_set, vector_reset}

abbrev pub VString : Type 0
VString = Vector ℕ

-- the next operation, if the one before it came back
unfoldable pub and_then {ℓ κ} : {A : Type ℓ} {B : Type κ} → Option A → (A → Option B) → Option B
and_then none f = none
and_then (some a) f = f a

-- `vStringTerminate__internal`
unfoldable pub vstring_terminate : VString → Option VString
vstring_terminate vstr = vector_push 0 vstr 0

-- `vStringInit`
unfoldable pub vstring_init : ℕ → Option VString
vstring_init capacity = and_then (vector_init 0 0 capacity) vstring_terminate

-- `vStringLength`
unfoldable pub vstring_length : VString → Option ℕ
vstring_length vstr = if vstr.len == 0 then none else some (vstr.len - 1)

-- `vStringAppend`
unfoldable pub vstring_append : VString → ℕ → Option VString
vstring_append vstr ch =
    if vstr.len == 0
    then none
    else and_then (vector_set 0 vstr (vstr.len - 1) ch) (λ written. vstring_terminate written.1)

-- the loop of `vStringAppendcString`
unfoldable pub push_all : VString → List ℕ → Option VString
push_all vstr [] = some vstr
push_all vstr (c ∷ cs) = and_then (vector_push 0 vstr c) (λ pushed. push_all pushed cs)

-- `vStringAppendcString`
unfoldable pub vstring_append_cstring : VString → List ℕ → Option VString
vstring_append_cstring vstr cstr =
    if vstr.len == 0
    then none
    else and_then (push_all (record vstr { len = vstr.len - 1 }) cstr) vstring_terminate

-- `snprintf` of the C library with the format of a number, which is an argument: `value` is what it returns
-- for a number, 0 standing for an error too, and `written` what it leaves in the buffer, up to its
-- NUL, for the size that it is told and a number
pub record Snprintf : Type 0 where
  pub value : ℕ → ℕ
  pub written : ℕ → ℕ → List ℕ

-- `vStringAppendIntMax`: the second call of `snprintf` is told `length` as the size of a buffer of `length + 1`
-- bytes
unfoldable pub vstring_append_int_max : Snprintf → VString → ℕ → Option VString
vstring_append_int_max snprintf vstr number =
    if vstr.len == 0
    then none
    else let length = snprintf.value number in
      if length == 0 then none else vstring_append_cstring vstr (snprintf.written length number)

-- the loop of `vStringTrim`: the index of the NUL that it comes to
unfoldable pub trim_loop : List ℕ → ℕ → ℕ → ℕ
trim_loop buffer ch zero = zero
trim_loop buffer ch (suc test_index) =
    let rest = trim_loop buffer ch test_index in
    if get_or buffer test_index 0 == ch then rest else suc test_index

-- `vStringTrim`
unfoldable pub vstring_trim : VString → ℕ → Option VString
vstring_trim vstr ch =
    if vstr.len == 0
    then none
    else let null_index = trim_loop vstr.buffer ch (vstr.len - 1) in
      and_then (vector_set 0 (record vstr { len = null_index + 1 }) null_index 0)
        (λ written. some written.1)

-- `vStringReset`
unfoldable pub vstring_reset : VString → Option VString
vstring_reset vstr = if vstr.len == 0 then none else and_then (vector_reset vstr) vstring_terminate

-- `vStringGet`
unfoldable pub vstring_get : VString → ℕ → Option ℕ
vstring_get vstr index = if vstr.len == 0 then none else vector_get 0 vstr index

-- `cStringFromvString`: the buffer, read as a string that ends at its NUL
unfoldable pub cstring_from_vstring : VString → Option (List ℕ)
cstring_from_vstring vstr = if vstr.len == 0 then none else some (take (vstr.len - 1) vstr.buffer)

-- all that building a text computes with
unfoldable pub running : Unit {0}
unfolding and_then vstring_terminate vstring_init vstring_append push_all vstring_append_cstring
    vstring_append_int_max cstring_from_vstring Vector.running
running = tt
