-- ===== src/Tests/Expand.antt =====
-- The theorems about vgexpand, each applied to concrete data.
use viewglob.Base.{
  ◌≤◌, ◌≡◌, refl, sym, ap, true, false, List, [], ◌∷◌, map, Option, none, some, Bytes, codes,
  length, if◌then◌else◌,
}
use viewglob.Base.Int.{pos}
use viewglob.Vgexpand.{
  fs_yes, fs_no, ft_regular, File, Directory, System, Order, less, same, greater, cmp_win,
  mark_traverse, make_new_dir, correlate, compile_data, mask_match,
}
use viewglob.Vgexpand.Path.{starts_at_root, normalize_path, vg_dirname, vg_basename}
use viewglob.Vgexpand.Split.{Mask}
use viewglob.Vgexpand.Marks.{mark_names, chosen, mark_names-chosen}
use viewglob.Vgexpand.Counts.{Each}
use viewglob.Vgexpand.Entries.{is_same, Adds, SystemLaws, cmp_win_lem, are_new}
use viewglob.Vgexpand.Totals.{AllCounted, compile_data-AllCounted}
use viewglob.Vgexpand.Parts.{join_path, vg_dirname-vg_basename}
use viewglob.Vgexpand.Normal.{IsNormal, normalize_path-IsNormal, length-normalize_path}

normalize_path-IsNormal_example :
    IsNormal (normalize_path (codes "src//lib/") true)
    × (IsNormal (codes "src//lib/") → normalize_path (codes "src//lib/") true ≡ codes "src//lib/")
normalize_path-IsNormal_example = normalize_path-IsNormal (codes "src//lib/")

length-normalize_path_example :
    length (normalize_path (codes "src//lib/") true) ≤ length (codes "src//lib/")
length-normalize_path_example = length-normalize_path (codes "src//lib/") true

abbrev regular : Bytes → File
regular name = record { name = name; selected = fs_no; type = ft_regular; shown = false }

abbrev two_files : Directory
two_files = record {
  name = codes "/src";
  dev_id = 1;
  inode = 2;
  selected_count = 0;
  file_count = 2;
  hidden_count = pos 2;
  files = regular (codes "main.c") ∷ regular (codes "main.h") ∷ [];
  is_pwd = false;
}

mark_names-chosen_example :
    (mark_names (codes "main.c" ∷ codes "main" ∷ []) two_files).files
    ≡ map (chosen (codes "main.c" ∷ codes "main" ∷ [])) two_files.files
mark_names-chosen_example =
    mark_names-chosen (codes "main.c" ∷ codes "main" ∷ []) two_files (refl, (refl, tt))

-- A tree as a sorted list.
insert_sorted : (File → File → Order) → File → List File → List File
insert_sorted cmp f [] = f ∷ []
insert_sorted cmp f (g ∷ gs) =
    let rest = insert_sorted cmp f gs in
    elim (cmp f g) [ less ↦ f ∷ g ∷ gs | same ↦ g ∷ gs | greater ↦ g ∷ rest ]

insert_sorted-Adds :
    (cmp : File → File → Order) (f : File) (fs : List File)
    → Each (λ g. is_same (cmp f g) ≡ false) fs
    → Adds f fs (insert_sorted cmp f fs)
unfolding insert_sorted
insert_sorted-Adds cmp f [] e = ([], [], refl, refl)
insert_sorted-Adds cmp f (g ∷ gs) (n, e) = by_order (cmp f g) n (insert_sorted-Adds cmp f gs e)
  where
    by_order :
        (o : Order)
        → is_same o ≡ false
        → Adds f gs (insert_sorted cmp f gs)
        → Adds f
            (g ∷ gs)
            (elim o [ less ↦ f ∷ g ∷ gs | same ↦ g ∷ gs | greater ↦ g ∷ insert_sorted cmp f gs ])
    by_order less k r = ([], g ∷ gs, refl, refl)
    by_order same k r = cc k
    by_order greater k (before, after, x, y) =
        (g ∷ before, after, ap (λ l. g ∷ l) x, ap (λ l. g ∷ l) y)

-- A directory of two files.
abbrev one_directory : System
one_directory = record {
  stat = λ name. some (1, 2);
  lstat = λ name. none;
  entries = λ name. some (codes "main.c" ∷ codes "main.h" ∷ []);
  fnmatch = λ pattern name. true;
  g_tree_insert = insert_sorted;
}

named_once :
    {es : List Bytes} → some (codes "main.c" ∷ codes "main.h" ∷ []) ≡ some es → are_new es [] ≡ true
named_once h =
    ap (λ (o : Option (List Bytes)). elim o [ none ↦ true | some es ↦ are_new es [] ]) (sym h)

one_directory_laws : SystemLaws one_directory cmp_win
one_directory_laws = record {
  insert_adds = insert_sorted-Adds cmp_win;
  entries_new = λ dir es h. named_once h;
  same_name = cmp_win_lem;
}

abbrev expanded : List Directory
expanded =
    record two_files {
      selected_count = 1;
      hidden_count = pos 1;
      files =
          record (regular (codes "main.c")) { selected = fs_yes; shown = true }
          ∷ regular (codes "main.h")
          ∷ [];
      is_pwd = true;
    }
    ∷ []

abbrev any_file : List Mask
any_file = record { pattern = codes "*"; dirs_only = false } ∷ []

compiled : compile_data one_directory cmp_win (codes "/src") (codes "main.c" ∷ []) ≡ some expanded
unfolding compile_data correlate make_new_dir mark_traverse insert_sorted normalize_path vg_dirname
    vg_basename
compiled = refl

compile_data-AllCounted_example : AllCounted (mask_match one_directory any_file expanded)
compile_data-AllCounted_example =
    compile_data-AllCounted one_directory cmp_win (codes "/src") one_directory_laws
      (codes "main.c" ∷ []) any_file expanded compiled

vg_dirname-vg_basename_example :
    join_path (vg_dirname (codes "/src") (codes "lib/main.c")) (vg_basename (codes "lib/main.c"))
    ≡ (if starts_at_root (codes "lib/main.c")
        then codes "lib/main.c"
        else join_path (codes "/src") (codes "lib/main.c"))
vg_dirname-vg_basename_example =
    vg_dirname-vg_basename (codes "/src") (codes "lib/main.c") refl refl
