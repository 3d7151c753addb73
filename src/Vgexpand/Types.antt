-- ===== src/Vgexpand/Types.antt =====
-- vgexpand/vgexpand.h and common/file-types.h: the files and directories, and what is asked of the
-- file system.
use viewglob.Base.{ℕ, Bool, true, false, ◌||◌, List, [], ◌∷◌, Option, Bytes, ltb, if◌then◌else◌}
use viewglob.Base.Int.{ℤ}

-- `FileSelection`, `FileType` and `struct _File`
pub data FileSelection : Type 0 where
  fs_yes : FileSelection
  fs_no : FileSelection
  fs_maybe : FileSelection

pub data FileType : Type 0 where
  ft_regular : FileType
  ft_executable : FileType
  ft_directory : FileType
  ft_blockdev : FileType
  ft_chardev : FileType
  ft_fifo : FileType
  ft_socket : FileType
  ft_symlink : FileType

pub record File : Type 0 where
  pub name : Bytes
  pub selected : FileSelection
  pub type : FileType
  pub shown : Bool

-- `struct _Directory`, in the list of directories. The looked-up name is an argument where it is
-- used.
pub record Directory : Type 0 where
  pub name : Bytes
  pub dev_id : ℕ
  pub inode : ℕ
  pub selected_count : ℕ
  pub file_count : ℕ
  pub hidden_count : ℤ
  pub files : List File
  pub is_pwd : Bool

abbrev pub is_yes : FileSelection → Bool
is_yes fs_yes = true
is_yes _ = false

abbrev pub is_directory : FileType → Bool
is_directory ft_directory = true
is_directory _ = false

-- `strcmp`, as the sign of its result.
pub data Order : Type 0 where
  less : Order
  same : Order
  greater : Order

abbrev pub strcmp : Bytes → Bytes → Order
strcmp [] [] = same
strcmp [] (b ∷ t) = less
strcmp (a ∷ s) [] = greater
strcmp (a ∷ s) (b ∷ t) =
    let rest = strcmp s t in if ltb a b then less else if ltb b a then greater else rest

abbrev pub cmp_ls : File → File → Order
cmp_ls a b = strcmp a.name b.name

abbrev pub cmp_win : File → File → Order
cmp_win a b =
    if is_directory a.type
    then (if is_directory b.type then strcmp a.name b.name else less)
    else (if is_directory b.type then greater else strcmp a.name b.name)

-- The format of `st_mode`, and its bits for execution.
pub data Format : Type 0 where
  s_reg : Format
  s_dir : Format
  s_lnk : Format
  s_blk : Format
  s_chr : Format
  s_fifo : Format
  s_sock : Format
  s_other : Format

pub record Mode : Type 0 where
  pub format : Format
  pub x_usr : Bool
  pub x_grp : Bool
  pub x_oth : Bool

abbrev pub determine_type : Mode → FileType
determine_type m = elim m.format [
  | s_reg ↦ if m.x_usr || (m.x_grp || m.x_oth) then ft_executable else ft_regular
  | s_dir ↦ ft_directory
  | s_lnk ↦ ft_symlink
  | s_blk ↦ ft_blockdev
  | s_chr ↦ ft_chardev
  | s_fifo ↦ ft_fifo
  | s_sock ↦ ft_socket
  | s_other ↦ ft_regular
]

-- What the system and the libraries give: the device and inode of a directory (`stat`), the mode of a
-- file (`lstat`), the entries of a directory (`opendir` and `readdir`), `fnmatch` with FNM_PERIOD,
-- and the insertion into a tree by a comparison.
pub record System : Type 0 where
  pub stat : Bytes → Option (ℕ × ℕ)
  pub lstat : Bytes → Option Mode
  pub entries : Bytes → Option (List Bytes)
  pub fnmatch : Bytes → Bytes → Bool
  pub g_tree_insert : (File → File → Order) → File → List File → List File

abbrev pub make_new_file : Bytes → FileType → File
make_new_file name type = record { name = name; selected = fs_no; type = type; shown = false }
