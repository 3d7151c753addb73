-- ===== src/Display/Reports.antt =====
-- vgdisplay/vgmini.c: `process_glob_data` reads back what vgexpand's `report` prints.
use mathlib.Core.List.{append_assoc}
use viewglob.Base.{
  lacks, ℕ, ◌+◌, ◌≤◌, ◌≡◌, refl, sym, ap, ◌∙◌, Bool, true, false, not, ◌&&◌, ◌||◌, List, [], ◌∷◌,
  ◌++◌, Bytes, codes, arith, ◌==◌, if◌then◌else◌, Bool-cases, inl, inr,
}
use viewglob.Libs.{is_digit}
use viewglob.Vgexpand.{File, Directory}
use viewglob.Vgexpand.Report.{selection_char, type_char, print_files}
use viewglob.Display.Glob.{
  grs_done, grs_selected_count, grs_in_limbo, grs_file_state, unmark_all_dirconts, file_box_add,
  GlobVars, up_to_delimiter, glob_step, and_calls, read_glob,
}
use viewglob.Display.ReadBack.{
  are_digits, is_number, file_calls, then_read, and_calls-and_calls, and_calls-nil, after_file,
  file_line, read_file,
}

-- The names of the files that are shown are on one line.
abbrev pub are_lines : List File → Bool
are_lines [] = true
are_lines (f ∷ fs) = (not f.shown || lacks 10 f.name) && are_lines fs

pub and_left : (a b : Bool) → (a && b) ≡ true → a ≡ true
and_left true b h = refl
and_left false b h = cc h

pub and_right : (a b : Bool) → (a && b) ≡ true → b ≡ true
and_right true b h = h
and_right false b h = cc h

print_files_shown :
    (f : File) (fs : List File) (rest : Bytes)
    → f.shown ≡ true
    → print_files (f ∷ fs) ++ rest ≡ file_line f (print_files fs ++ rest)
unfolding print_files file_line
print_files_shown f fs rest h =
    ap
      (λ (b : Bool).
        (if b
          then 9
            ∷ (selection_char f.selected
                ++ (codes " "
                    ++ (type_char f.type ++ (codes " " ++ (f.name ++ (10 ∷ print_files fs))))))
          else print_files fs)
        ++ rest)
      h
    ∙ simp append_assoc

print_files_hidden :
    (f : File) (fs : List File) → f.shown ≡ false → print_files (f ∷ fs) ≡ print_files fs
unfolding print_files
print_files_hidden f fs h =
    ap
      (λ (b : Bool).
        if b
        then 9
          ∷ (selection_char f.selected
              ++ (codes " "
                  ++ (type_char f.type ++ (codes " " ++ (f.name ++ (10 ∷ print_files fs))))))
        else print_files fs)
      h

pub read_files :
    (fs : List File) (v : GlobVars) (rest : Bytes)
    → v.string ≡ []
    → are_lines fs ≡ true
    → (u : GlobVars) × (u.string ≡ [])
      × (u.next_dir ≡ v.next_dir)
      × (read_glob grs_in_limbo v (print_files fs ++ rest)
          ≡ and_calls (file_calls v.next_file fs) (read_glob grs_in_limbo u rest))
unfolding print_files after_file
read_files [] v rest e k = (v, e, refl, sym (and_calls-nil _))
read_files (f ∷ fs) v rest e k = elim (Bool-cases f.shown) [
  | inl y ↦
      let (u, p, q, r) = read_files fs (after_file f v) rest refl (and_right _ _ k) in
      (
        u,
        p,
        q,
        ap (read_glob grs_in_limbo v) (print_files_shown f fs rest y)
            ∙ read_file f v (print_files fs ++ rest) e
                (sym (ap (λ b. not b || lacks 10 f.name) y) ∙ and_left _ _ k)
            ∙ ap (and_calls (file_box_add f.name f.type f.selected v.next_file ∷ [])) r
            ∙ and_calls-and_calls (file_box_add f.name f.type f.selected v.next_file ∷ [])
                (file_calls (v.next_file + 1) fs) (read_glob grs_in_limbo u rest)
            ∙ ap
                (λ (b : Bool).
                  and_calls
                    (if b
                      then file_box_add f.name f.type f.selected v.next_file
                        ∷ file_calls (v.next_file + 1) fs
                      else file_calls v.next_file fs)
                    (read_glob grs_in_limbo u rest))
                (sym y),
      )
  | inr n ↦
      let (u, p, q, r) = read_files fs v rest e (and_right _ _ k) in
      (
        u,
        p,
        q,
        ap (λ l. read_glob grs_in_limbo v (l ++ rest)) (print_files_hidden f fs n)
            ∙ r
            ∙ ap
                (λ (b : Bool).
                  and_calls
                    (if b
                      then file_box_add f.name f.type f.selected v.next_file
                        ∷ file_calls (v.next_file + 1) fs
                      else file_calls v.next_file fs)
                    (read_glob grs_in_limbo u rest))
                (sym n),
      )
]

-- The name of a directory in the report; PWD_CHAR is 6.
abbrev pub label : Directory → Bytes
label d = (if d.is_pwd then 6 ∷ [] else []) ++ d.name

-- A directory whose lines can be told apart.
abbrev pub is_line : Directory → Bool
is_line d = lacks 10 (label d) && are_lines d.files

abbrev pub all_lines : List Directory → Bool
all_lines [] = true
all_lines (d ∷ ds) = is_line d && all_lines ds

digits_lack : (c d : ℕ) → (is_digit c || c == 45) ≡ true → d ≤ 32 → (c == d) ≡ false
digits_lack c d h k = ground arith

pub number_lacks : (s : Bytes) → are_digits s ≡ true → lacks 32 s ≡ true
number_lacks [] h = refl
number_lacks (c ∷ s) h =
    ap (λ b. not b && lacks 32 s) (digits_lack c 32 (and_left _ _ h) (ground arith))
    ∙ number_lacks s (and_right _ _ h)

pub number_digits : (s : Bytes) → is_number s ≡ true → are_digits s ≡ true
number_digits [] h = refl
number_digits (c ∷ s) h = h

-- The reading of a directory begins with its selected count.
pub limbo_selected :
    (s : Bytes) (v : GlobVars) (rest : Bytes)
    → is_number s ≡ true
    → read_glob grs_in_limbo v (s ++ rest) ≡ read_glob grs_selected_count v (s ++ rest)
unfolding read_glob glob_step
limbo_selected [] v rest h = cc h
limbo_selected (c ∷ s) v rest h =
    ap
      (λ (b : Bool).
        then_read
          (if b
            then ([], grs_file_state, v)
            else if c == 10
            then ([], grs_done, v)
            else up_to_delimiter grs_selected_count v c)
          (s ++ rest))
      (digits_lack c 9 (and_left _ _ h) (ground arith))
    ∙ ap
        (λ (b : Bool).
          then_read (if b then ([], grs_done, v) else up_to_delimiter grs_selected_count v c)
            (s ++ rest))
        (digits_lack c 10 (and_left _ _ h) (ground arith))

pub done_selected :
    (s : Bytes) (v : GlobVars) (rest : Bytes)
    → is_number s ≡ true
    → read_glob grs_done v (s ++ rest)
      ≡ and_calls
          (unmark_all_dirconts ∷ [])
          (read_glob grs_selected_count (record v { next_dir = 0 }) (s ++ rest))
unfolding read_glob glob_step
done_selected [] v rest h = cc h
done_selected (c ∷ s) v rest h =
    let (calls, rs, u) = up_to_delimiter grs_selected_count (record v { next_dir = 0 }) c in
    sym (and_calls-and_calls (unmark_all_dirconts ∷ []) calls (read_glob rs u (s ++ rest)))
