-- ===== src/Resolver/Signatures.antt =====
-- The text of a signature, as src/resolver.c builds it, told without its strings.
use lemon.Base.{
  ℕ, ◌+◌, ◌-◌, ◌≤◌, ◌<◌, ◌≡◌, refl, sym, ap, ◌∙◌, subst, Option, none, some, List, [], ◌∷◌, ◌++◌,
  append_assoc, append-nil, take, length, length-append, length-take, size_max, arith,
}
use lemon.Parser.Tree.{TypeNode, base, named, pointer, array, Param}
use lemon.Resolver.Types.{
  append_type, append_more, append_params, append_result, create_func_signature,
  create_method_signature,
}
use lemon.Str.{VString, Snprintf, and_then}
use lemon.Str.Texts.{
  Prints, Text, Holds, len_text, vstring_init_lem, vstring_append_lem, vstring_append_cstring_lem,
}
use lemon.Resolver.Notation.{
  notation, source_text, all_but_last, ArePlain, IsPlainResult, type_text, more_text, params_text,
  result_text, function_text, method_text, params_text-ArePlain, result_text-IsPlainResult,
}
use lemon.Resolver.TypeTexts.{type_size, string_from_type_lem, cstring_from_vstring_lem}

module _ (print : ℕ → List ℕ) where
  length-type_text : (node : TypeNode) → length (type_text print node) ≤ type_size print node
  length-type_text (base name line) = omega arith
  length-type_text (named name reference line) =
      omega (arith, length-append name (type_text print reference), length-type_text reference)
  length-type_text (pointer reference line) = omega (arith, length-type_text reference)
  length-type_text (array element len line) =
      let digits = take (length (print len) - 1) (print len) in
      omega (
        arith,
        length-take (length (print len) - 1) (print len),
        length-append digits (b']' ∷ type_text print element),
        length-type_text element,
      )

  abbrev pub params_size : List Param → ℕ
  params_size [] = 0
  params_size (p ∷ params) = 1 + type_size print p.typ + params_size params

  abbrev pub result_size : Option TypeNode → ℕ
  result_size none = 1
  result_size (some node) = 1 + type_size print node

  module _ (snprintf : Snprintf) (prints : Prints snprintf print) where
    append_type-Holds :
        (node : TypeNode) (vstr : VString) (xs : List ℕ)
        → Text vstr xs
        → vstr.len + type_size print node < size_max
        → Holds (append_type snprintf vstr node) (xs ++ type_text print node)
    unfolding append_type and_then
    append_type-Holds node vstr xs text room =
        rw
          (string_from_type_lem print snprintf prints node
            (omega (arith, len_text vstr xs text, room)))
          (vstring_append_cstring_lem vstr xs text (type_text print node)
            (omega (arith, length-type_text node, room)))

    append_more-Holds :
        (params : List Param) (vstr : VString) (xs : List ℕ)
        → Text vstr xs
        → vstr.len + params_size params < size_max
        → Holds (append_more snprintf vstr params) (xs ++ more_text (type_text print) params)
    unfolding append_more and_then
    append_more-Holds [] vstr xs text room =
        (vstr, refl, subst (Text vstr) (sym (append-nil xs)) text)
    append_more-Holds (p ∷ params) vstr xs text room =
        let size = len_text vstr xs text in
        let (v1, e1, text1) = vstring_append_lem vstr xs text b',' (omega (arith, room)) in
        let xs1 = xs ++ b',' ∷ [] in
        let size1 = len_text v1 xs1 text1 in
        let more1 = length-append xs (b',' ∷ []) in
        let (v2, e2, text2) =
          append_type-Holds p.typ v1 xs1 text1 (omega (arith, size1, more1, size, room)) in
        let xs2 = xs1 ++ type_text print p.typ in
        let size2 = len_text v2 xs2 text2 in
        let more2 = length-append xs1 (type_text print p.typ) in
        rw (e1, e2)
          (subst (Holds (append_more snprintf v2 params))
            (append_assoc xs1 (type_text print p.typ) (more_text (type_text print) params)
              ∙ append_assoc xs (b',' ∷ [])
                  (type_text print p.typ ++ more_text (type_text print) params))
            (append_more-Holds params v2 xs2 text2
              (omega (arith, size2, more2, more1, size, length-type_text p.typ, room))))

    append_params-Holds :
        (params : List Param) (vstr : VString) (xs : List ℕ)
        → Text vstr xs
        → vstr.len + params_size params < size_max
        → Holds (append_params snprintf vstr params) (xs ++ params_text (type_text print) params)
    unfolding append_params and_then
    append_params-Holds [] vstr xs text room =
        (vstr, refl, subst (Text vstr) (sym (append-nil xs)) text)
    append_params-Holds (p ∷ params) vstr xs text room =
        let size = len_text vstr xs text in
        let (v1, e1, text1) = append_type-Holds p.typ vstr xs text (omega (arith, room)) in
        let xs1 = xs ++ type_text print p.typ in
        rw e1 (
          subst (Holds (append_more snprintf v1 params))
            (append_assoc xs (type_text print p.typ) (more_text (type_text print) params))
            (append_more-Holds params v1 xs1 text1 (
              omega (
                arith,
                len_text v1 xs1 text1,
                length-append xs (type_text print p.typ),
                size,
                length-type_text p.typ,
                room,
              ))))

    append_result-Holds :
        (ret : Option TypeNode) (vstr : VString) (xs : List ℕ)
        → Text vstr xs
        → vstr.len + result_size ret < size_max
        → Holds (append_result snprintf vstr ret) (xs ++ result_text (type_text print) ret)
    unfolding append_result and_then
    append_result-Holds none vstr xs text room =
        vstring_append_lem vstr xs text b':' (omega (arith, room))
    append_result-Holds (some node) vstr xs text room =
        let (v1, e1, text1) = vstring_append_lem vstr xs text b':' (omega (arith, room)) in
        let xs1 = xs ++ b':' ∷ [] in
        rw e1 (
          subst (Holds (append_type snprintf v1 node))
            (append_assoc xs (b':' ∷ []) (type_text print node))
            (append_type-Holds node v1 xs1 text1 (
              omega (
                arith,
                len_text v1 xs1 text1,
                length-append xs (b':' ∷ []),
                len_text vstr xs text,
                room,
              ))))

    length-more_text :
        (params : List Param) → length (more_text (type_text print) params) ≤ params_size params
    length-more_text [] = omega arith
    length-more_text (p ∷ params) = omega (
      arith,
      length-append (type_text print p.typ) (more_text (type_text print) params),
      length-type_text p.typ,
      length-more_text params,
    )

    length-params_text :
        (params : List Param) → length (params_text (type_text print) params) ≤ params_size params
    length-params_text [] = omega arith
    length-params_text (p ∷ params) = omega (
      arith,
      length-append (type_text print p.typ) (more_text (type_text print) params),
      length-type_text p.typ,
      length-more_text params,
    )

    length-result_text :
        (ret : Option TypeNode) → length (result_text (type_text print) ret) ≤ result_size ret
    length-result_text none = omega arith
    length-result_text (some node) = omega (arith, length-type_text node)

    -- For what the C library documents of `snprintf`, and types whose parts fit a string: the signature of a method
    -- is the texts of its parameters' types with commas between, a colon before the text of its return
    -- type, if it has one, and a colon before that of the receiver's. The text of a type is not all of the
    -- notation that it has in a program: the length of an array is without its last digit, `[3]int32`
    -- being `[]int32`, and there is no dot between the names of a named type, `b.s` being `bs`.
    pub create_method_signature_lem :
        (params : List Param) (ret : Option TypeNode) (recv : TypeNode)
        → 1 + params_size params + result_size ret + result_size (some recv) < size_max
        → create_method_signature snprintf params ret recv
          ≡ some (method_text (notation (λ len. all_but_last (print len)) []) params ret recv)
    unfolding create_method_signature and_then
    create_method_signature_lem params ret recv room =
        let (v1, e1, text1) = vstring_init_lem 8 (omega arith) in
        let size1 = len_text v1 [] text1 in
        let (v2, e2, text2) = append_params-Holds params v1 [] text1 (omega (arith, size1, room)) in
        let size2 = len_text v2 (params_text (type_text print) params) text2 in
        let short = length-params_text params in
        let (v3, e3, text3) =
          append_result-Holds ret v2 (params_text (type_text print) params) text2
            (omega (arith, size2, short, room)) in
        let xs3 = params_text (type_text print) params ++ result_text (type_text print) ret in
        let size3 = len_text v3 xs3 text3 in
        let (v4, e4, text4) = append_result-Holds (some recv) v3 xs3 text3 (
          omega (
            arith,
            size3,
            length-append (params_text (type_text print) params)
                (result_text (type_text print) ret),
            short,
            length-result_text ret,
            room,
          )) in
        rw (e1, e2, e3, e4)
          (cstring_from_vstring_lem print snprintf prints v4
            (xs3 ++ result_text (type_text print) (some recv)) text4)

    -- The same for a function, which has no receiver, with the text that is built for a type.
    create_func_signature_lem :
        (params : List Param) (ret : Option TypeNode)
        → 1 + params_size params + result_size ret < size_max
        → create_func_signature snprintf params ret
          ≡ some (function_text (type_text print) params ret)
    unfolding create_func_signature and_then
    create_func_signature_lem params ret room =
        let (v1, e1, text1) = vstring_init_lem 8 (omega arith) in
        let size1 = len_text v1 [] text1 in
        let (v2, e2, text2) = append_params-Holds params v1 [] text1 (omega (arith, size1, room)) in
        let (v3, e3, text3) =
          append_result-Holds ret v2 (params_text (type_text print) params) text2 (
            omega (
              arith,
              len_text v2 (params_text (type_text print) params) text2,
              length-params_text params,
              room,
            )) in
        rw (e1, e2, e3)
          (cstring_from_vstring_lem print snprintf prints v3
            (params_text (type_text print) params ++ result_text (type_text print) ret) text3)

    -- For what the C library documents of `snprintf`, and types that have no array and no module and whose parts
    -- fit a string: the signature of a function is what the program says, the notation of its
    -- parameters' types with commas between, and a colon before that of its return type, if it has one.
    pub create_func_signature-IsPlain :
        (params : List Param) (ret : Option TypeNode)
        → ArePlain params
        → IsPlainResult ret
        → 1 + params_size params + result_size ret < size_max
        → create_func_signature snprintf params ret
          ≡ some (function_text (source_text print) params ret)
    create_func_signature-IsPlain params ret plain plain' room =
        create_func_signature_lem params ret room
        ∙ ap some (
            cc
              (params_text-ArePlain print params plain, result_text-IsPlainResult print ret plain'))
