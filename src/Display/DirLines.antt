-- ===== src/Display/DirLines.antt =====
-- vgdisplay/vgmini.c: `process_glob_data` reads back a directory of the report.
use mathlib.Core.List.{append_assoc}
use viewglob.Base.{lacks, ℕ, ◌+◌, ◌≡◌, refl, ap, ◌∙◌, true, List, [], ◌∷◌, ◌++◌, Bytes}
use viewglob.Base.Int.{ℤ}
use viewglob.Vgexpand.{Directory}
use viewglob.Vgexpand.Report.{print_files, print_dir}
use viewglob.Display.Glob.{
  grs_selected_count, grs_file_count, grs_hidden_count, grs_dir_name, grs_in_limbo, GlobCall,
  add_dircont, GlobVars, glob_step, and_calls, read_glob,
}
use viewglob.Display.ReadBack.{
  is_number, file_calls, and_calls-and_calls, and_calls-nil, read_whole,
}
use viewglob.Display.Reports.{
  and_left, and_right, read_files, label, is_line, number_lacks, number_digits,
}

module _ (decimal : ℤ → Bytes) (numbers : (z : ℤ) → is_number (decimal z) ≡ true) where
  -- The calls for a directory.
  abbrev pub dir_call : ℕ → Directory → GlobCall
  dir_call n d =
      add_dircont (label d) n (decimal (ℤ.pos d.selected_count)) (decimal (ℤ.pos d.file_count))
        (decimal d.hidden_count)

  abbrev pub dir_calls : ℕ → List Directory → List GlobCall
  dir_calls n [] = []
  dir_calls n (d ∷ ds) = dir_call n d ∷ (file_calls 0 d.files ++ dir_calls (n + 1) ds)

  pub dir_line : Directory → Bytes → Bytes
  dir_line d rest =
      decimal (ℤ.pos d.selected_count)
      ++ (32
          ∷ (decimal (ℤ.pos d.file_count)
              ++ (32 ∷ (decimal d.hidden_count ++ (32 ∷ (label d ++ (10 ∷ rest)))))))

  pub print_dir_line :
      (d : Directory) (rest : Bytes)
      → print_dir decimal d ++ rest ≡ dir_line d (print_files d.files ++ rest)
  unfolding print_dir dir_line
  print_dir_line d rest = simp append_assoc

  without_space : (z : ℤ) → lacks 32 (decimal z) ≡ true
  without_space z = number_lacks (decimal z) (number_digits (decimal z) (numbers z))

  read_dir_line :
      (d : Directory) (v : GlobVars) (rest : Bytes)
      → v.string ≡ []
      → lacks 10 (label d) ≡ true
      → (u : GlobVars) × (u.string ≡ [])
        × (u.next_dir ≡ v.next_dir + 1)
        × (u.next_file ≡ 0)
        × (read_glob grs_selected_count v (dir_line d rest)
            ≡ and_calls (dir_call v.next_dir d ∷ []) (read_glob grs_in_limbo u rest))
  unfolding dir_line glob_step
  read_dir_line d v rest e k = (
    record x { string = []; next_file = 0 },
    refl,
    refl,
    refl,
    read_whole grs_selected_count v (decimal (ℤ.pos d.selected_count)) _ (λ u c. refl) e
          (without_space _)
        ∙ and_calls-nil _
        ∙ read_whole grs_file_count w (decimal (ℤ.pos d.file_count)) _ (λ u c. refl) refl
            (without_space _)
        ∙ and_calls-nil _
        ∙ read_whole grs_hidden_count
            (record w { total = decimal (ℤ.pos d.file_count); string = [] })
            (decimal d.hidden_count) _ (λ u c. refl) refl (without_space _)
        ∙ and_calls-nil _
        ∙ read_whole grs_dir_name x (label d) rest (λ u c. refl) refl k,
  )
    where
      w : GlobVars
      w = record v {
        selected = decimal (ℤ.pos d.selected_count);
        string = [];
        dir_rank = v.next_dir;
        next_dir = v.next_dir + 1;
      }

      x : GlobVars
      x = record w { total = decimal (ℤ.pos d.file_count); hidden = decimal d.hidden_count }

  pub read_dir :
      (d : Directory) (v : GlobVars) (rest : Bytes)
      → v.string ≡ []
      → is_line d ≡ true
      → (u : GlobVars) × (u.string ≡ [])
        × (u.next_dir ≡ v.next_dir + 1)
        × (read_glob grs_selected_count v (print_dir decimal d ++ rest)
            ≡ and_calls
                (dir_call v.next_dir d ∷ file_calls 0 d.files)
                (read_glob grs_in_limbo u rest))
  read_dir d v rest e k =
      let (u, p, q, z, r) = read_dir_line d v (print_files d.files ++ rest) e (and_left _ _ k) in
      let (u', p', q', r') = read_files d.files u rest p (and_right _ _ k) in
      (
        u',
        p',
        q' ∙ q,
        ap (read_glob grs_selected_count v) (print_dir_line d rest)
            ∙ r
            ∙ ap (and_calls (dir_call v.next_dir d ∷ [])) r'
            ∙ and_calls-and_calls (dir_call v.next_dir d ∷ []) (file_calls u.next_file d.files)
                (read_glob grs_in_limbo u' rest)
            ∙ ap
                (λ n.
                  and_calls (dir_call v.next_dir d ∷ file_calls n d.files)
                    (read_glob grs_in_limbo u' rest))
                z,
      )
