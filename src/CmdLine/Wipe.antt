-- ===== src/CmdLine/Wipe.antt =====
-- vgseer/cmdline.c: the functions that erase in the line, and that clean up behind its end.
use viewglob.Base.{
  ℕ, zero, suc, ◌+◌, ◌-◌, Bool, true, false, ◌&&◌, [], ◌∷◌, Option, none, some, Bytes, ◌==◌, ltb,
  length, take, drop, if◌then◌else◌,
}
use viewglob.Base.Int.{ℤ, pos}
use viewglob.Libs.{Libs}
use viewglob.Actions.{send_cmd}
use viewglob.CmdLine.Edit.{Editor, enqueue, with_text, with_pos, byte_at, cmd_del_chars}

-- strchr
unfoldable pub strchr : Bytes → ℕ → Option ℕ
strchr [] c = none
strchr (x ∷ xs) c =
    let rest : Option ℕ = elim (strchr xs c) [ none ↦ none | some i ↦ some (suc i) ] in
    if x == c then some 0 else if x == 0 then none else rest

abbrev or_else : Option ℕ → ℕ → ℕ
or_else none d = d
or_else (some i) d = i

module _ (libs : Libs) where
  -- The ^M to the right of the cursor, counted from the cursor.
  right_cr : Editor → Option ℕ
  unfolding strchr
  right_cr e =
      let d = e.cmd in
      let right = drop d.pos d.text in
      if d.is_utf8 then libs.utf8_strchr right (length d.text - d.pos) b'\r' else strchr right b'\r'

  -- The ^M to the left of the cursor.
  left_cr : Editor → Option ℕ
  left_cr e =
      let d = e.cmd in
      if d.is_utf8
      then libs.utf8_strrchr d.text d.pos b'\r'
      else libs.strrstr_len d.text d.pos (b'\r' ∷ [])

  -- The characters in `n` bytes from `p` on.
  abbrev chars_in : Editor → ℕ → ℕ → ℕ
  chars_in e p n = if e.cmd.is_utf8 then libs.utf8_pointer_to_offset (drop p e.cmd.text) n else n

  wipe_right : Option ℕ → Editor → Editor
  wipe_right none e = with_text (take e.cmd.pos e.cmd.text) e.cmd.pos e
  wipe_right (some r) e =
      let e' = (cmd_del_chars libs (pos (chars_in e e.cmd.pos r)) e).0 in
      if e'.cmd.pos == 0 then (cmd_del_chars libs (pos 1) e').0 else e'

  wipe_all : ℕ → ℕ → Editor → Editor
  wipe_all l r e = (cmd_del_chars libs (pos (chars_in e l (r - l))) (with_pos l e)).0

  -- The direction is the parameter of an escape sequence: 0 is `D_RIGHT`, 1 is `D_LEFT` and 2 is
  -- `D_ALL`.
  unfoldable pub cmd_wipe_in_line : ℤ → Editor → Editor × Bool
  unfolding right_cr left_cr wipe_right wipe_all cmd_del_chars
  cmd_wipe_in_line (pos zero) e = (enqueue send_cmd (wipe_right (right_cr e) e), true)
  cmd_wipe_in_line (pos (suc (suc zero))) e =
      let r : ℕ = elim (right_cr e) [ none ↦ length e.cmd.text | some k ↦ e.cmd.pos + k ] in
      (enqueue send_cmd (wipe_all (or_else (left_cr e) 0) r e), true)
  cmd_wipe_in_line _ e = (e, false)

  -- The test of the loop.
  unfoldable pub has_trailing_cr : Editor → Bool
  has_trailing_cr e =
      let n = length e.cmd.text in
      ltb 0 n && byte_at e.cmd.text (n - 1) == b'\r' && ltb e.cmd.pos (n - 1)

  abbrev del_last : Editor → Editor
  del_last e =
      with_pos e.cmd.pos (cmd_del_chars libs (pos 1) (with_pos (length e.cmd.text - 1) e)).0

  del_CRs : ℕ → Editor → Editor
  del_CRs zero e = e
  del_CRs (suc fuel) e = elim (has_trailing_cr e) [ true ↦ del_CRs fuel (del_last e) | false ↦ e ]

  -- Every round removes a byte, so the bytes are enough rounds.
  unfoldable pub cmd_del_trailing_CRs : Editor → Editor
  unfolding del_CRs has_trailing_cr cmd_del_chars
  cmd_del_trailing_CRs e = del_CRs (length e.cmd.text) e
