-- ===== src/Resolver/TypeTexts.antt =====
-- The text of a type, as src/resolver.c builds it, told without its strings.
use lemon.Base.{
  ℕ, ◌+◌, ◌-◌, ◌<◌, ◌≡◌, ap, ◌∙◌, subst, some, List, [], ◌∷◌, ◌++◌, append_assoc, take, length,
  length-append, length-take, size_max, arith,
}
use lemon.Parser.Tree.{TypeNode, base, named, pointer, array}
use lemon.Resolver.Notation.{type_text}
use lemon.Resolver.Types.{string_from_type_recursive, string_from_type}
use lemon.Str.{VString, Snprintf, and_then, cstring_from_vstring}
use lemon.Str.Texts.{
  Prints, Text, Holds, len_text, nonempty, take-append-last, vstring_init_lem, vstring_append_lem,
  vstring_append_cstring_lem, vstring_append_int_max_lem,
}

module _ (print : ℕ → List ℕ) where
  -- the room that its building takes
  abbrev pub type_size : TypeNode → ℕ
  type_size (base name line) = length name
  type_size (named name reference line) = length name + type_size reference
  type_size (pointer reference line) = 1 + type_size reference
  type_size (array element len line) = 2 + length (print len) + type_size element

  module _ (snprintf : Snprintf) (prints : Prints snprintf print) where
    string_from_type_recursive-Holds :
        (node : TypeNode) (vstr : VString) (xs : List ℕ)
        → Text vstr xs
        → vstr.len + type_size node < size_max
        → Holds (string_from_type_recursive snprintf vstr node) (xs ++ type_text print node)
    unfolding string_from_type_recursive and_then
    string_from_type_recursive-Holds (base name line) vstr xs text room =
        vstring_append_cstring_lem vstr xs text name room
    string_from_type_recursive-Holds (named name reference line) vstr xs text room =
        let (v, e, text') = vstring_append_cstring_lem vstr xs text name (omega (arith, room)) in
        rw e (
          subst (Holds (string_from_type_recursive snprintf v reference))
            (append_assoc xs name (type_text print reference))
            (string_from_type_recursive-Holds reference v (xs ++ name) text' (
              omega (
                arith,
                len_text v (xs ++ name) text',
                len_text vstr xs text,
                length-append xs name,
                room,
              ))))
    string_from_type_recursive-Holds (pointer reference line) vstr xs text room =
        let (v, e, text') = vstring_append_lem vstr xs text b'*' (omega (arith, room)) in
        rw e (
          subst (Holds (string_from_type_recursive snprintf v reference))
            (append_assoc xs (b'*' ∷ []) (type_text print reference))
            (string_from_type_recursive-Holds reference v (xs ++ b'*' ∷ []) text' (
              omega (
                arith,
                len_text v (xs ++ b'*' ∷ []) text',
                len_text vstr xs text,
                length-append xs (b'*' ∷ []),
                room,
              ))))
    string_from_type_recursive-Holds (array element len line) vstr xs text room =
        let digits = take (length (print len) - 1) (print len) in
        let less = length-take (length (print len) - 1) (print len) in
        let (v1, e1, text1) = vstring_append_lem vstr xs text b'[' (omega (arith, room)) in
        let xs1 = xs ++ b'[' ∷ [] in
        let size1 = len_text v1 xs1 text1 in
        let more1 = length-append xs (b'[' ∷ []) in
        let size = len_text vstr xs text in
        let (v2, e2, text2) =
          vstring_append_int_max_lem v1 xs1 text1 snprintf print prints len
            (omega (arith, size1, more1, size, room)) in
        let size2 = len_text v2 (xs1 ++ digits) text2 in
        let more2 = length-append xs1 digits in
        let (v3, e3, text3) =
          vstring_append_lem v2 (xs1 ++ digits) text2 b']'
            (omega (arith, size2, more2, less, size1, more1, size, room)) in
        let xs3 = (xs1 ++ digits) ++ b']' ∷ [] in
        let size3 = len_text v3 xs3 text3 in
        let more3 = length-append (xs1 ++ digits) (b']' ∷ []) in
        rw (e1, e2, e3)
          (subst (Holds (string_from_type_recursive snprintf v3 element))
            (append_assoc (xs1 ++ digits) (b']' ∷ []) (type_text print element)
              ∙ append_assoc xs1 digits (b']' ∷ type_text print element)
              ∙ append_assoc xs (b'[' ∷ []) (digits ++ b']' ∷ type_text print element))
            (string_from_type_recursive-Holds element v3 xs3 text3
              (omega (arith, size3, more3, more2, less, more1, size, room))))

    pub cstring_from_vstring_lem :
        (v : VString) (xs : List ℕ) → Text v xs → cstring_from_vstring v ≡ some xs
    unfolding cstring_from_vstring
    cstring_from_vstring_lem v xs text =
        let last : v.len - 1 ≡ length xs = omega (arith, len_text v xs text) in
        let e = nonempty v xs text in
        rw e (rw last (ap some (take-append-last v.len v.buffer xs 0 text.terminated)))

    -- `StringFromType` returns the notation of the type, with the length of an array without its last digit and
    -- nothing between the two names of a named type, for a type whose parts fit a string.
    pub string_from_type_lem :
        (node : TypeNode)
        → 1 + type_size node < size_max
        → string_from_type snprintf node ≡ some (type_text print node)
    unfolding string_from_type and_then
    string_from_type_lem node room =
        let (v, e, text) = vstring_init_lem 16 (omega arith) in
        let (v', e', text') =
          string_from_type_recursive-Holds node v [] text
            (omega (arith, len_text v [] text, room)) in
        rw (e, e') (cstring_from_vstring_lem v' (type_text print node) text')
