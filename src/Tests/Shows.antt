-- ===== src/Tests/Shows.antt =====
-- The theorems about vgdisplay, each applied to concrete data.
use viewglob.Base.{
  Option, ℕ, zero, suc, ◌+◌, ◌/◌, ◌%◌, ◌≡◌, refl, true, false, ◌||◌, List, [], ◌∷◌, ◌++◌, none,
  some, Bytes, ◌==◌, codes, arith, ltb, if◌then◌else◌, Bool-cases, inl, inr,
}
use viewglob.Base.Int.{ℤ, pos, negsuc}
use viewglob.Vgexpand.{fs_yes, fs_no, ft_regular, ft_executable, ft_directory, File, Directory}
use viewglob.Vgexpand.Report.{print_dirs}
use viewglob.Display.Glob.{grs_done, unmark_all_dirconts, first_vars, read_glob}
use viewglob.Display.ReadBack.{are_digits, is_number}
use viewglob.Libs.{is_digit}
use viewglob.Display.Reports.{and_left, and_right}
use viewglob.Display.DirLines.{dir_calls}
use viewglob.Display.RoundTrip.{read_glob-print_dirs}
use viewglob.Display.WrapBox.{
  WrapBox, Widget, requested, request_loops, wrap_box_size_request_optimal,
}
use viewglob.Display.Fits.{IsWithin, wrap_box_size_request_optimal-IsWithin}
use viewglob.Display.Columns.{layout_cols}
use viewglob.Display.Layout.{shown, all_taken, AllColumns, layout_cols-all}
use viewglob.Display.FileBox.{
  FItem, FileBox, no_items, file_box_begin_read, file_box_add, file_box_flush,
}
use viewglob.Display.Items.{AreNamed, find}
use viewglob.Display.Listing.{read_again, last_given, listed}
use viewglob.Display.Rereading.{read_again-listed}
use viewglob.Display.Mini.{Vgmini, wrap_box_init}
use viewglob.ParamIo.{Parameter, p_vgexpand_data, p_order}
use viewglob.Display.Events.{showing, receive_each}
use viewglob.Display.Steady.{Steady, receive_each-Steady}

-- `%d`, with at least as much fuel as digits
digits : ℕ → ℕ → Bytes
digits zero n = (48 + n % 10) ∷ []
digits (suc fuel) n =
    let more = digits fuel (n / 10) in
    if ltb n 10 then (48 + n % 10) ∷ [] else more ++ ((48 + n % 10) ∷ [])

decimal_text : ℤ → Bytes
unfolding digits
decimal_text (pos n) = digits n n
decimal_text (negsuc n) = 45 ∷ digits (n + 1) (n + 1)

digit_lem : (n : ℕ) → are_digits ((48 + n % 10) ∷ []) ≡ true
digit_lem n = ground arith

digits-append :
    (s t : Bytes) → are_digits s ≡ true → are_digits t ≡ true → are_digits (s ++ t) ≡ true
digits-append [] t h k = k
digits-append (c ∷ s) t h k =
    rw (and_left (is_digit c || c == 45) (are_digits s) h) (digits-append s t (and_right _ _ h) k)

number-append : (s t : Bytes) → is_number s ≡ true → are_digits t ≡ true → is_number (s ++ t) ≡ true
number-append [] t h k = cc h
number-append (c ∷ s) t h k = digits-append (c ∷ s) t h k

digits-are : (fuel n : ℕ) → is_number (digits fuel n) ≡ true
unfolding digits
digits-are zero n = digit_lem n
digits-are (suc fuel) n = elim (Bool-cases (ltb n 10)) [
  | inl y ↦ rw y (digit_lem n)
  | inr y ↦ rw y (number-append (digits fuel (n / 10)) _ (digits-are fuel (n / 10)) (digit_lem n))
]

number_digits : (s : Bytes) → is_number s ≡ true → are_digits s ≡ true
number_digits [] h = refl
number_digits (c ∷ s) h = h

decimal_text-numbers : (z : ℤ) → is_number (decimal_text z) ≡ true
unfolding decimal_text
decimal_text-numbers (pos n) = digits-are n n
decimal_text-numbers (negsuc n) =
    number_digits (digits (n + 1) (n + 1)) (digits-are (n + 1) (n + 1))

abbrev main_c : File
main_c = record { name = codes "main.c"; selected = fs_yes; type = ft_regular; shown = true }

abbrev include_dir : File
include_dir = record { name = codes "include"; selected = fs_no; type = ft_directory; shown = true }

abbrev source_dir : Directory
source_dir = record {
  name = codes "~/src";
  dev_id = 1;
  inode = 2;
  selected_count = 1;
  file_count = 12;
  hidden_count = pos 10;
  files = main_c ∷ include_dir ∷ [];
  is_pwd = true;
}

abbrev root_dir : Directory
root_dir = record {
  name = codes "/";
  dev_id = 1;
  inode = 3;
  selected_count = 0;
  file_count = 1;
  hidden_count = pos 0;
  files = include_dir ∷ [];
  is_pwd = false;
}

read_glob-print_dirs_example :
    read_glob grs_done first_vars
      (print_dirs decimal_text (source_dir ∷ root_dir ∷ []) ++ (10 ∷ []))
    ≡ some (
        unmark_all_dirconts
        ∷ dir_calls decimal_text decimal_text-numbers 0 (source_dir ∷ root_dir ∷ []))
read_glob-print_dirs_example =
    read_glob-print_dirs decimal_text decimal_text-numbers source_dir (root_dir ∷ []) refl

-- Two children of 20 by 10, within a border of 2.
abbrev two_children : WrapBox Widget
two_children = record {
  border_width = 2;
  hspacing = 3;
  vspacing = 0;
  n_children = 2;
  children =
      record { visible = true; width = 20; height = 10 }
      ∷ record { visible = true; width = 20; height = 10 }
      ∷ [];
  child_limit = 32767;
}

two_columns : wrap_box_size_request_optimal two_children 50 ≡ requested 47 14
unfolding wrap_box_size_request_optimal
two_columns = refl

one_column : wrap_box_size_request_optimal two_children 40 ≡ requested 24 24
unfolding wrap_box_size_request_optimal
one_column = refl

-- The finding: a child that is not visible.
abbrev hidden_child : WrapBox Widget
hidden_child = record two_children {
  children =
      record { visible = false; width = 20; height = 10 }
      ∷ record { visible = true; width = 20; height = 10 }
      ∷ [];
}

never_ends : wrap_box_size_request_optimal hidden_child 50 ≡ request_loops
unfolding wrap_box_size_request_optimal
never_ends = refl

wrap_box_size_request_optimal-IsWithin_example :
    IsWithin 40 (wrap_box_size_request_optimal two_children 40)
wrap_box_size_request_optimal-IsWithin_example =
    wrap_box_size_request_optimal-IsWithin two_children 40 refl (omega arith) (omega arith)

layout_cols-all_example :
    (ks : List (List Widget × ℕ)) × (layout_cols two_children 15 3 two_children.children ≡ some ks)
    × (all_taken ks ≡ shown two_children.children)
    × AllColumns two_children 15 ks
layout_cols-all_example = layout_cols-all two_children 15 two_children.children 3 (omega arith)

-- A box that held another file.
abbrev old_box : FileBox
old_box =
    (file_box_add (file_box_add (no_items wrap_box_init) (codes "a.out") ft_executable fs_no 0).0
      (codes "main.c") ft_regular fs_no 1).0

old_box-AreNamed : AreNamed old_box.fis
unfolding file_box_add
old_box-AreNamed = (refl, (refl, tt))

read_again-listed_example :
    AreNamed (read_again (main_c ∷ include_dir ∷ []) old_box).fis
    × ((n : Bytes)
        → listed (find n (read_again (main_c ∷ include_dir ∷ []) old_box).fis)
          ≡ last_given n (main_c ∷ include_dir ∷ []))
read_again-listed_example = read_again-listed (main_c ∷ include_dir ∷ []) old_box old_box-AreNamed

-- The finding: a new file comes before one that was there, behind one that is gone.
names_of : List FItem → List Bytes
names_of [] = []
names_of (fi ∷ fis) = fi.name ∷ names_of fis

out_of_order :
    names_of (read_again (main_c ∷ include_dir ∷ []) old_box).fis
    ≡ codes "include" ∷ codes "main.c" ∷ []
unfolding names_of file_box_begin_read file_box_add file_box_flush
out_of_order = refl

abbrev no_dircont : Vgmini
no_dircont = record {
  title = codes "vg";
  width_change = pos 0;
  cmdline = [];
  dcs = [];
  active = none;
  term_win = [];
  jump_resize = true;
}

-- A report, the orders to go down and up, and another report, which drops a directory.
abbrev some_messages : List (Option (Parameter × Bytes))
some_messages =
    some (p_vgexpand_data, print_dirs decimal_text (source_dir ∷ root_dir ∷ []) ++ (10 ∷ []))
    ∷ some (p_order, codes "down")
    ∷ some (p_order, codes "up")
    ∷ some (p_vgexpand_data, print_dirs decimal_text (root_dir ∷ []) ++ (10 ∷ []))
    ∷ []

receive_each-Steady_example :
    Steady (receive_each (λ dc. 240) (λ s. s) some_messages (showing no_dircont))
receive_each-Steady_example =
    receive_each-Steady decimal_text decimal_text-numbers (λ dc. 240) (λ s. s) some_messages
      (showing no_dircont)
      (
        inr (source_dir, root_dir ∷ [], refl, refl),
        (tt, (tt, (inr (root_dir, [], refl, refl), tt))),
      )
      (tt, tt, tt)
