-- ===== src/Vgexpand.antt =====
-- vgexpand/vgexpand.c and vgexpand/vgexpand.h: the directories of a command line, with the files that
-- it names. A `GTree` is the list of its keys in their order; `NULL` is the empty one.
pub mod Path
pub mod Split
pub mod Report
pub mod Marks
pub mod Counts
pub mod Entries
pub mod Totals
pub mod Normal
pub mod Parts
pub mod Types
pub use Types.*
use viewglob.Base.{
  ℕ, ◌+◌, Bool, true, false, not, ◌&&◌, ◌||◌, List, [], ◌∷◌, ◌++◌, Option, none, some, Bytes, codes,
  length, ltb, ◌==◌, if◌then◌else◌,
}
use viewglob.Base.Int.{ℤ, pos, negsuc}
use viewglob.Vgexpand.Path.{vg_dirname, vg_basename, normalize_path, has_trailing_slash}
use viewglob.Vgexpand.Split.{Mask}

-- `--` on a `gint`
abbrev pub decrement : ℤ → ℤ
decrement (pos ℕ.zero) = negsuc 0
decrement (pos (ℕ.suc n)) = pos n
decrement (negsuc n) = negsuc (n + 1)

-- `STRNEQ(s, t, strlen(s))`
abbrev pub is_prefix : Bytes → Bytes → Bool
is_prefix [] t = true
is_prefix (a ∷ s) [] = false
is_prefix (a ∷ s) (b ∷ t) = a == b && is_prefix s t

unfoldable pub mark_traverse : Bytes → File → Directory → File × Directory
mark_traverse lookup f d =
    if is_yes f.selected
    then (f, d)
    else if is_prefix lookup f.name
    then (if length lookup == length f.name
        then (
          record f { selected = fs_yes; shown = true },
          record d {
            selected_count = d.selected_count + 1;
            hidden_count = decrement d.hidden_count;
          },
        )
        else (record f { selected = fs_maybe }, d))
    else (f, d)

-- `g_tree_foreach` over the files of a directory
abbrev pub traverse :
    (File → Directory → File × Directory) → List File → Directory → List File × Directory
traverse g [] d = ([], d)
traverse g (f ∷ fs) d = let (f', d') = g f d in let (fs', d'') = traverse g fs d' in (f' ∷ fs', d'')

abbrev pub foreach : (File → Directory → File × Directory) → Directory → Directory
foreach g d = let (fs, d') = traverse g d.files d in record d' { files = fs }

abbrev pub compare_by_inode : ℕ → ℕ → ℕ → ℕ → Bool
compare_by_inode dev1 inode1 dev2 inode2 = inode1 == inode2 && dev1 == dev2

-- The system, the comparison `filename_cmp`, and the working directory.
module _ (sys : System) (filename_cmp : File → File → Order) (pwd : Bytes) where
  abbrev pub type_of : Bytes → FileType
  type_of path = elim (sys.lstat path) [ none ↦ ft_regular | some m ↦ determine_type m ]

  -- The loop over the entries.
  abbrev pub add_entries : Bytes → List Bytes → Directory → Directory
  add_entries dir_name [] d = d
  add_entries dir_name (e ∷ es) d =
      let f = make_new_file e (type_of (dir_name ++ (codes "/" ++ e))) in
      add_entries dir_name es (record d {
        files = sys.g_tree_insert filename_cmp f d.files;
        file_count = d.file_count + 1;
      })

  abbrev pub new_directory : Bytes → ℕ → ℕ → Directory
  new_directory name dev inode = record {
    name = name;
    dev_id = dev;
    inode = inode;
    selected_count = 0;
    file_count = 0;
    hidden_count = pos 0;
    files = [];
    is_pwd = false;
  }

  abbrev pub with_entries : Option (List Bytes) → Directory → Directory
  with_entries none d = d
  with_entries (some es) d =
      let t = add_entries d.name es d in record t { hidden_count = pos t.file_count }

  unfoldable pub make_new_dir : Bytes → ℕ → ℕ → Directory
  make_new_dir name dev inode = with_entries (sys.entries name) (new_directory name dev inode)

  -- The looked-up name is marked in a directory.
  abbrev pub mark : Option Bytes → Directory → Directory
  mark none d = d
  mark (some lookup) d = foreach (mark_traverse lookup) d

  -- `correlate` with `have_dir`, along the list of directories.
  unfoldable pub correlate : Bytes → Option Bytes → ℕ → ℕ → List Directory → List Directory
  unfolding make_new_dir mark_traverse
  correlate dir_name file_name dev inode [] = mark file_name (make_new_dir dir_name dev inode) ∷ []
  correlate dir_name file_name dev inode (d ∷ ds) =
      let rest = correlate dir_name file_name dev inode ds in
      if compare_by_inode dev inode d.dev_id d.inode then mark file_name d ∷ ds else d ∷ rest

  abbrev pub correlate_at : Bytes → Option Bytes → List Directory → List Directory
  correlate_at dir_name file_name ds = elim (sys.stat dir_name) [
    | none ↦ ds
    | some (dev, inode) ↦ correlate dir_name file_name dev inode ds
  ]

  -- An argument, as a file, and as a directory if it ends in a slash.
  abbrev pub take_argument : Bytes → List Directory → List Directory
  take_argument arg ds =
      let path = normalize_path arg true in
      let ds' = correlate_at (vg_dirname pwd path) (some (vg_basename path)) ds in
      if has_trailing_slash arg
      then correlate_at (vg_dirname pwd (normalize_path arg false)) none ds'
      else ds'

  abbrev pub take_arguments : List Bytes → List Directory → List Directory
  take_arguments [] ds = ds
  take_arguments (a ∷ others) ds = take_arguments others (take_argument a ds)

  -- `initiate`
  abbrev pub initiate : ℕ → ℕ → List Directory
  initiate dev inode = record (make_new_dir pwd dev inode) { is_pwd = true } ∷ []

  -- `compile_data`, behind the first word; `none` where the program exits.
  unfoldable pub compile_data : List Bytes → Option (List Directory)
  unfolding correlate make_new_dir
  compile_data args = elim (sys.stat pwd) [
    | none ↦ none
    | some (dev, inode) ↦ some (take_arguments args (initiate dev inode))
  ]

-- Whether one of the masks shows a file.
abbrev pub matches : System → List Mask → File → Bool
matches sys [] f = false
matches sys (m ∷ ms) f =
    ((not m.dirs_only || is_directory f.type) && sys.fnmatch m.pattern f.name) || matches sys ms f

unfoldable pub mask_traverse : System → List Mask → File → Directory → File × Directory
mask_traverse sys masks f d =
    if is_yes f.selected
    then (f, d)
    else if matches sys masks f
    then (record f { shown = true }, record d { hidden_count = decrement d.hidden_count })
    else (f, d)

unfoldable pub mask_match : System → List Mask → List Directory → List Directory
unfolding mask_traverse
mask_match sys masks [] = []
mask_match sys masks (d ∷ ds) = foreach (mask_traverse sys masks) d ∷ mask_match sys masks ds
