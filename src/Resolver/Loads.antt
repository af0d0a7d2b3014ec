-- ===== src/Resolver/Loads.antt =====
-- What a load of a source file comes to: `SyntaxTreeInit` of src/parser.c with `FileLoad` of
-- src/utils/file.c before it. The texts of the files on the disk are an argument.
use lemon.Base.{
  ℕ, Bool, false, Option, none, some, List, ◌++◌, leb, length, drop, bytes_eq, codes, if◌then◌else◌,
  ◌-◌,
}
use lemon.Parser.{SyntaxTree, tree, ill_formed, past_channel, no_fuel, syntax_tree_init}
use lemon.Parser
use lemon.Parser.Tree.{CString, Module}

-- a tree, NULL, or the end of the program
pub data Loaded : Type 0 where
  loaded : Module → Loaded
  unread halted : Loaded

-- `HasExtension`
unfoldable pub has_extension : CString → Bool
has_extension name =
    if leb 4 (length name) then bytes_eq (drop (length name - 4) name) (codes ".lem") else false

-- `FileGetDiskName`
unfoldable pub file_get_disk_name : CString → CString
file_get_disk_name name = if has_extension name then name else name ++ codes ".lem"

-- the files on the disk by their names, as `cStringFromFile` copies them; `none` for one that cannot be
-- opened or copied
abbrev pub Disk : Type 0
Disk = CString → Option (List ℕ)

-- `FileLoad`
unfoldable pub file_load : Disk → CString → Option (List ℕ)
file_load disk name = disk (file_get_disk_name name)

unfoldable pub read_tree : SyntaxTree → Loaded
read_tree (tree root) = loaded root
read_tree ill_formed = unread
read_tree Parser.stopped = halted
read_tree past_channel = halted
read_tree no_fuel = halted

unfoldable pub parse_text : CString → Option (List ℕ) → Loaded
parse_text filename none = unread
parse_text filename (some src) = read_tree (syntax_tree_init filename src)

-- `SyntaxTreeInit` on the files of a disk
unfoldable pub load_tree : Disk → CString → Loaded
load_tree disk filename = parse_text filename (file_load disk filename)

-- all that a load computes with
unfoldable pub running : Unit {0}
unfolding has_extension file_get_disk_name file_load read_tree parse_text load_tree bytes_eq
    Parser.running
running = tt
