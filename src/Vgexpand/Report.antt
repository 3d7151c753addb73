-- ===== src/Vgexpand/Report.antt =====
-- vgexpand/vgexpand.c: the report, and the names of the directories in it.
use viewglob.Base.{
  true, ◌&&◌, List, [], ◌∷◌, ◌++◌, Option, none, some, Bytes, codes, length, drop, ltb, ◌==◌,
  if◌then◌else◌,
}
use viewglob.Base.Int.{ℤ}
use viewglob.ParamIo.{streq}
use viewglob.Vgexpand.{
  FileSelection, fs_yes, fs_no, fs_maybe, FileType, ft_regular, ft_executable, ft_directory,
  ft_blockdev, ft_chardev, ft_fifo, ft_socket, ft_symlink, File, Directory, is_prefix,
}
use viewglob.Vgexpand.Path.{normalize_path}

-- `enum sort_order`
pub data SortOrder : Type 0 where
  so_descending : SortOrder
  so_ascending : SortOrder
  so_ascending_pwd_first : SortOrder

-- A name under the home directory; `none` where the code writes before the name.
unfoldable pub with_tilde : Bytes → Bytes → Option Bytes
with_tilde home name =
    if length home == length name
    then (if streq home name then some (codes "~") else some name)
    else if ltb (length home) (length name)
        && (is_prefix home name && is_prefix (codes "/") (drop (length home) name))
    then (if length home == 0 then none else some (codes "~" ++ drop (length home) name))
    else some name

abbrev pub rename : Bytes → List Directory → Option (List Directory)
rename home [] = some []
rename home (d ∷ ds) = elim (with_tilde home d.name) [
  | none ↦ none
  | some n ↦ elim (rename home ds) [ none ↦ none | some es ↦ some (record d { name = n } ∷ es) ]
]

-- `home_to_tilde`, with what `getenv` gives
unfoldable pub home_to_tilde : Option Bytes → List Directory → Option (List Directory)
unfolding with_tilde normalize_path
home_to_tilde none ds = some ds
home_to_tilde (some home) ds = rename (normalize_path home true) ds

-- `reverse_list`: the loop moves the head of `p2` onto `p1`.
abbrev pub reverse_onto : List Directory → List Directory → List Directory
reverse_onto [] p1 = p1
reverse_onto (d ∷ p2) p1 = reverse_onto p2 (d ∷ p1)

unfoldable pub reverse_list : List Directory → List Directory
reverse_list head = reverse_onto head []

-- The order of printing, in `report`.
unfoldable pub in_order : SortOrder → List Directory → List Directory
unfolding reverse_list
in_order so_descending dirs = dirs
in_order so_ascending dirs = reverse_list dirs
in_order so_ascending_pwd_first [] = []
in_order so_ascending_pwd_first (d ∷ dirs) = d ∷ reverse_list dirs

abbrev pub selection_char : FileSelection → Bytes
selection_char fs_yes = codes "*"
selection_char fs_no = codes "-"
selection_char fs_maybe = codes "~"

abbrev pub type_char : FileType → Bytes
type_char ft_regular = codes "r"
type_char ft_executable = codes "e"
type_char ft_directory = codes "d"
type_char ft_blockdev = codes "b"
type_char ft_chardev = codes "c"
type_char ft_fifo = codes "f"
type_char ft_socket = codes "s"
type_char ft_symlink = codes "y"

-- `print_traverse` over the files. A tab is 9, a newline 10.
unfoldable pub print_files : List File → Bytes
print_files [] = []
print_files (f ∷ fs) =
    let rest = print_files fs in
    if f.shown
    then 9
      ∷ (selection_char f.selected
          ++ (codes " " ++ (type_char f.type ++ (codes " " ++ (f.name ++ (10 ∷ rest))))))
    else rest

-- Numbers are printed by `%d`.
module _ (decimal : ℤ → Bytes) where
  unfoldable pub print_dir : Directory → Bytes
  unfolding print_files
  print_dir d =
      decimal (ℤ.pos d.selected_count)
      ++ (codes " "
          ++ (decimal (ℤ.pos d.file_count)
              ++ (codes " "
                  ++ (decimal d.hidden_count
                      ++ (codes " "
                          ++ ((if d.is_pwd then 6 ∷ [] else [])
                              ++ (d.name ++ (10 ∷ print_files d.files))))))))

  abbrev pub print_dirs : List Directory → Bytes
  print_dirs [] = []
  print_dirs (d ∷ ds) = print_dir d ++ print_dirs ds

  unfoldable pub report : SortOrder → List Directory → Bytes
  unfolding in_order print_dir
  report ordering dirs = 2 ∷ (print_dirs (in_order ordering dirs) ++ (10 ∷ 3 ∷ []))
