-- ===== src/Display/RoundTrip.antt =====
-- vgdisplay/vgmini.c: `process_glob_data` on the whole of vgexpand's report.
use mathlib.Core.List.{append_assoc}
use viewglob.Base.{◌≡◌, refl, sym, ap, ◌∙◌, true, List, [], ◌∷◌, ◌++◌, some, Bytes}
use viewglob.Base.Int.{ℤ}
use viewglob.Vgexpand.{Directory}
use viewglob.Vgexpand.Report.{print_dir, print_dirs}
use viewglob.Display.Glob.{
  grs_done, grs_selected_count, grs_in_limbo, unmark_all_dirconts, GlobVars, first_vars, glob_step,
  and_calls, end_calls, read_glob,
}
use viewglob.Display.ReadBack.{is_number, file_calls}
use viewglob.Display.Reports.{all_lines, and_left, and_right, limbo_selected, done_selected}
use viewglob.Display.DirLines.{dir_calls, dir_call, read_dir}

module _ (decimal : ℤ → Bytes) (numbers : (z : ℤ) → is_number (decimal z) ≡ true) where
  limbo_dir :
      (d : Directory) (v : GlobVars) (rest : Bytes)
      → read_glob grs_in_limbo v (print_dir decimal d ++ rest)
        ≡ read_glob grs_selected_count v (print_dir decimal d ++ rest)
  unfolding print_dir
  limbo_dir d v rest =
      ap (read_glob grs_in_limbo v) (append_assoc (decimal (ℤ.pos d.selected_count)) _ rest)
      ∙ limbo_selected (decimal (ℤ.pos d.selected_count)) v _ (numbers _)
      ∙ sym (
          ap (read_glob grs_selected_count v)
            (append_assoc (decimal (ℤ.pos d.selected_count)) _ rest))

  done_dir :
      (d : Directory) (v : GlobVars) (rest : Bytes)
      → read_glob grs_done v (print_dir decimal d ++ rest)
        ≡ and_calls
            (unmark_all_dirconts ∷ [])
            (read_glob grs_selected_count (record v { next_dir = 0 }) (print_dir decimal d ++ rest))
  unfolding print_dir
  done_dir d v rest =
      ap (read_glob grs_done v) (append_assoc (decimal (ℤ.pos d.selected_count)) _ rest)
      ∙ done_selected (decimal (ℤ.pos d.selected_count)) v _ (numbers _)
      ∙ sym (
          ap
            (λ s.
              and_calls (unmark_all_dirconts ∷ [])
                (read_glob grs_selected_count (record v { next_dir = 0 }) s))
            (append_assoc (decimal (ℤ.pos d.selected_count)) _ rest))

  read_end : (v : GlobVars) → v.string ≡ [] → read_glob grs_in_limbo v (10 ∷ []) ≡ some []
  unfolding read_glob glob_step
  read_end v e = ap (λ s. and_calls [] (end_calls s)) e

  read_dirs :
      (ds : List Directory) (v : GlobVars)
      → v.string ≡ []
      → all_lines ds ≡ true
      → read_glob grs_in_limbo v (print_dirs decimal ds ++ (10 ∷ []))
        ≡ some (dir_calls decimal numbers v.next_dir ds)
  read_dirs [] v e k = read_end v e
  read_dirs (d ∷ ds) v e k =
      let (u, p, q, r) =
        read_dir decimal numbers d v (print_dirs decimal ds ++ (10 ∷ [])) e (and_left _ _ k) in
      ap (read_glob grs_in_limbo v)
        (append_assoc (print_dir decimal d) (print_dirs decimal ds) (10 ∷ []))
      ∙ limbo_dir d v _
      ∙ r
      ∙ ap (and_calls (dir_call decimal numbers v.next_dir d ∷ file_calls 0 d.files))
          (read_dirs ds u p (and_right _ _ k))
      ∙ ap
          (λ n. some (
            dir_call decimal numbers v.next_dir d
            ∷ (file_calls 0 d.files ++ dir_calls decimal numbers n ds)))
          q

  -- What vgexpand prints of one directory or more, with the line feed behind it, is read back by the
  -- display's state machine from its first state as: forget the marks, then for each directory in
  -- turn, add it with its name (behind the PWD mark, for the working directory), its rank and its
  -- three counts as they were printed, and add each of its files that is shown, with its name, type,
  -- selection and its rank among these. It never reads beyond the end. Numbers are printed as a
  -- nonempty string of digits and signs, and no name has a line feed.
  pub read_glob-print_dirs :
      (d : Directory) (ds : List Directory)
      → all_lines (d ∷ ds) ≡ true
      → read_glob grs_done first_vars (print_dirs decimal (d ∷ ds) ++ (10 ∷ []))
        ≡ some (unmark_all_dirconts ∷ dir_calls decimal numbers 0 (d ∷ ds))
  read_glob-print_dirs d ds k =
      let (u, p, q, r) =
        read_dir decimal numbers d first_vars (print_dirs decimal ds ++ (10 ∷ [])) refl
          (and_left _ _ k) in
      ap (read_glob grs_done first_vars)
        (append_assoc (print_dir decimal d) (print_dirs decimal ds) (10 ∷ []))
      ∙ done_dir d first_vars _
      ∙ ap (and_calls (unmark_all_dirconts ∷ [])) r
      ∙ ap
          (λ o.
            and_calls (unmark_all_dirconts ∷ [])
              (and_calls (dir_call decimal numbers 0 d ∷ file_calls 0 d.files) o))
          (read_dirs ds u p (and_right _ _ k))
      ∙ ap
          (λ n. some (
            unmark_all_dirconts
            ∷ (dir_call decimal numbers 0 d
                ∷ (file_calls 0 d.files ++ dir_calls decimal numbers n ds))))
          q
