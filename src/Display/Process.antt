-- ===== src/Display/Process.antt =====
-- vgdisplay/vgmini.c: a report is taken, `process_glob_data` with the calls that it makes. The width
-- that GTK allocated to the file box of a directory is a parameter.
use viewglob.Base.{
  ℕ, Bool, List, [], ◌∷◌, ◌++◌, Option, none, some, Bytes, codes, ◌==◌, if◌then◌else◌,
}
use viewglob.Display.Glob.{
  GlobCall, unmark_all_dirconts, add_dircont, grs_done, first_vars, first_char, read_glob,
}
use viewglob.Display.FileBox.{file_box_add}
use viewglob.Display.Mini.{
  DirCont, Vgmini, find_dircont, change_dircont, add_score, dircont_init, dircont_set_counts,
  dircont_mark, dircont_set_optimal_width, unmark_all, known_dircont, score_points, cull_dcs,
  rearrange_and_show,
}

-- PWD_CHAR is 6.
abbrev pub without_mark : Bytes → Bytes
without_mark [] = []
without_mark (c ∷ name) = if c == 6 then name else c ∷ name

module _ (allocated_width : DirCont → ℕ) where
  -- A new one; 100 is the score of being new.
  abbrev pub new_dircont : Bytes → ℕ → Bytes → Bytes → Bytes → Bool → Option DirCont → DirCont
  new_dircont name rank selected total hidden is_pwd active =
      let c : DirCont =
        record (dircont_set_counts selected total hidden (record dircont_init { name = name })) {
          is_pwd = is_pwd;
        } in
      let width : ℕ = elim active [ none ↦ 240 | some a ↦ allocated_width a ] in
      let m : DirCont = dircont_mark rank (dircont_set_optimal_width width c) in
      record m { score = add_score m.score 100 }

  abbrev pub active_dircont : Vgmini → Option DirCont
  active_dircont vg = elim vg.active [ none ↦ none | some n ↦ find_dircont n vg ]

  -- `add_dircont`, behind the PWD mark
  unfoldable pub add_named : Vgmini → Bytes → Bool → ℕ → Bytes → Bytes → Bytes → Vgmini
  add_named vg name is_pwd rank selected total hidden = elim (find_dircont name vg) [
    | some dc ↦ change_dircont name (known_dircont rank selected total hidden is_pwd) vg
    | none ↦ record vg {
      dcs = vg.dcs ++ (new_dircont name rank selected total hidden is_pwd (active_dircont vg) ∷ []);
    }
  ]

  -- The calls of the reading, with the name of the directory that was added last; `none` where there is
  -- none to add a file to.
  unfoldable pub run_call : GlobCall → Option Bytes → Vgmini → Option (Option Bytes × Vgmini)
  unfolding add_named
  run_call unmark_all_dirconts dc vg = some (dc, unmark_all vg)
  run_call (add_dircont name rank selected total hidden) dc vg =
      let is_pwd = first_char name == 6 in
      let vg' : Vgmini =
        if is_pwd then record vg { title = codes "vg " ++ without_mark name } else vg in
      some (
        some (without_mark name),
        add_named vg' (without_mark name) is_pwd rank selected total hidden,
      )
  run_call (GlobCall.file_box_add name type selection rank) none vg = none
  run_call (GlobCall.file_box_add name type selection rank) (some n) vg = elim (find_dircont n vg) [
    | none ↦ none
    | some dc ↦ some (
      some n,
      change_dircont n (score_points (file_box_add dc.file_box name type selection rank)) vg,
    )
  ]

  unfoldable pub run_calls : List GlobCall → Option Bytes → Vgmini → Option Vgmini
  unfolding run_call
  run_calls [] dc vg = some vg
  run_calls (call ∷ calls) dc vg = elim (run_call call dc vg) [
    | none ↦ none
    | some (dc', vg') ↦ run_calls calls dc' vg'
  ]

  -- The whole of `process_glob_data`, with its reading.
  unfoldable pub process_glob_data : Bytes → Vgmini → Option Vgmini
  unfolding read_glob run_calls cull_dcs rearrange_and_show
  process_glob_data buf vg = elim (read_glob grs_done first_vars buf) [
    | none ↦ none
    | some calls ↦ elim (run_calls calls none vg) [
      | none ↦ none
      | some vg' ↦ rearrange_and_show (cull_dcs vg')
    ]
  ]
