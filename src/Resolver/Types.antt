-- ===== src/Resolver/Types.antt =====
-- The types of declarations as text, of src/resolver.c.
--
-- `snprintf` of the C library is an argument. `none` is a failed assertion or an abort.
use lemon.Base.{Option, none, some, List, [], ◌∷◌}
use lemon.Parser.Tree.{CString, TypeNode, base, named, pointer, array, Param}
use lemon.Str
use lemon.Str.{
  VString, Snprintf, and_then, vstring_init, vstring_append, vstring_append_cstring,
  vstring_append_int_max, cstring_from_vstring,
}

-- `UnwindType`
unfoldable pub unwind_type : TypeNode → TypeNode
unwind_type (base name line) = base name line
unwind_type (named name reference line) = named name reference line
unwind_type (pointer reference line) = unwind_type reference
unwind_type (array element len line) = unwind_type element

module _ (snprintf : Snprintf) where
  -- `StringFromType__recursive`
  unfoldable pub string_from_type_recursive : VString → TypeNode → Option VString
  string_from_type_recursive vstr (base name line) = vstring_append_cstring vstr name
  string_from_type_recursive vstr (named name reference line) =
      and_then (vstring_append_cstring vstr name) (λ v. string_from_type_recursive v reference)
  string_from_type_recursive vstr (pointer reference line) =
      and_then (vstring_append vstr b'*') (λ v. string_from_type_recursive v reference)
  string_from_type_recursive vstr (array element len line) =
      and_then (vstring_append vstr b'[') (λ v1.
        and_then (vstring_append_int_max snprintf v1 len)
          (λ v2. and_then (vstring_append v2 b']') (λ v3. string_from_type_recursive v3 element)))

  -- `StringFromType`
  unfoldable pub string_from_type : TypeNode → Option CString
  string_from_type node =
      and_then (vstring_init 16)
        (λ vstr. and_then (string_from_type_recursive vstr node) cstring_from_vstring)

  -- the types of the parameters from `i` on, each but the first behind a comma
  unfoldable pub append_type : VString → TypeNode → Option VString
  append_type vstr node =
      and_then (string_from_type node) (λ text. vstring_append_cstring vstr text)

  unfoldable pub append_more : VString → List Param → Option VString
  append_more vstr [] = some vstr
  append_more vstr (p ∷ params) =
      and_then (vstring_append vstr b',')
        (λ v. and_then (append_type v p.typ) (λ v'. append_more v' params))

  unfoldable pub append_params : VString → List Param → Option VString
  append_params vstr [] = some vstr
  append_params vstr (p ∷ params) = and_then (append_type vstr p.typ) (λ v. append_more v params)

  -- a type that may be null, behind a colon
  unfoldable pub append_result : VString → Option TypeNode → Option VString
  append_result vstr none = vstring_append vstr b':'
  append_result vstr (some node) = and_then (vstring_append vstr b':') (λ v. append_type v node)

  -- `CreateFuncSignature`, with `VECTOR_DEFAULT_CAPACITY`
  unfoldable pub create_func_signature : List Param → Option TypeNode → Option CString
  create_func_signature params ret = and_then (vstring_init 8) (λ v1.
      and_then (append_params v1 params)
        (λ v2. and_then (append_result v2 ret) cstring_from_vstring))

  -- `CreateMethodSignature`
  unfoldable pub create_method_signature : List Param → Option TypeNode → TypeNode → Option CString
  create_method_signature params ret recv = and_then (vstring_init 8) (λ v1.
      and_then (append_params v1 params) (λ v2.
        and_then (append_result v2 ret)
          (λ v3. and_then (append_result v3 (some recv)) cstring_from_vstring)))

-- all that these functions compute with
unfoldable pub running : Unit {0}
unfolding unwind_type string_from_type_recursive string_from_type append_type append_more
    append_params append_result create_func_signature create_method_signature cstring_from_vstring
    Str.running
running = tt
