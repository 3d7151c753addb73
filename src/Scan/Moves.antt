-- ===== src/Scan/Moves.antt =====
-- vgseer/sequences.c: each reaction to a match moves the connection on.
use viewglob.Base.{
  ℕ, ◌+◌, ◌-◌, ◌<◌, ◌≡◌, ◌⊎◌, refl, Bool, true, false, Option, none, some, arith, ◌==◌, ◌||◌,
  if◌then◌else◌,
}
use viewglob.Libs.{Libs}
use viewglob.Connection.{Connection, pass_segment, eat_segment, terminal, next_byte}
use viewglob.CmdLine.Mask.{is_print}
use viewglob.Actions.{Action}
use viewglob.Sequences.Pattern.{
  SeqName, cmd_wrapped, carriage_return, viewglob_all, ps1_separator, esc,
}
use viewglob.Sequences.State.{ShellType, Seer}
use viewglob.Sequences.Handlers.{
  seq_new_pwd, seq_zsh_completion_done, seq_cmd_wrapped, seq_backspace, seq_cursor_forward,
  seq_cursor_backward, seq_delete_chars, seq_insert_blanks, seq_erase_in_line, seq_cursor_up,
  seq_carriage_return, seq_newline, seq_pass, seq_ctrl_g,
}
use viewglob.Sequences.Navigation.{
  seq_viewglob_all, arrow_key, after_arrow, first_arrow, mask_key, navigation_key, start_mask,
  first_key, nav_action,
}
use viewglob.Sequences.Check.{func}

-- The bytes behind the position, the segment included.
abbrev pub ahead : Connection → ℕ
ahead b = b.filled - b.pos

-- The connection `b` is nearer to the end of its content than `a`, with no segment.
abbrev pub Nearer : Connection → Connection → Type 0
Nearer a b = (ahead b < ahead a) × (b.seglen ≡ 0) × (b.status ≡ a.status)

-- The sequences whose reaction leaves the last character to be looked at again.
abbrev pub leaves_last : SeqName → Bool
leaves_last cmd_wrapped = true
leaves_last carriage_return = true
leaves_last _ = false

pass_segment-Nearer : (b : Connection) → b.pos + b.seglen < b.filled → Nearer b (pass_segment b)
unfolding pass_segment
pass_segment-Nearer b h = (omega arith, refl, refl)

eat_segment-Nearer : (b : Connection) → b.pos + b.seglen < b.filled → Nearer b (eat_segment b)
unfolding eat_segment
eat_segment-Nearer b h = (omega arith, refl, refl)

module _ (libs : Libs) (shell : ShellType) (s : Seer)
    (h : s.conn.pos + s.conn.seglen < s.conn.filled) where
  passed : Nearer s.conn (pass_segment s.conn)
  passed = pass_segment-Nearer s.conn h

  eaten : Nearer s.conn (eat_segment s.conn)
  eaten = eat_segment-Nearer s.conn h

  arrow_key-Nearer : (t : Seer) → arrow_key s ≡ some t → Nearer s.conn (eat_segment t.conn)
  unfolding arrow_key eat_segment
  arrow_key-Nearer t e = ground arith

  after_arrow-Nearer : (o : Option Seer) → arrow_key s ≡ o → Nearer s.conn (after_arrow o s).conn
  after_arrow-Nearer none e = passed
  after_arrow-Nearer (some t) e = arrow_key-Nearer t e

  first_arrow-Nearer : (o : Option Seer) → arrow_key s ≡ o → Nearer s.conn (first_arrow o s).conn
  first_arrow-Nearer none e = eaten_elsewhere
    where
      eaten_elsewhere : Nearer s.conn (eat_segment (record s.conn { pl = terminal }))
      eaten_elsewhere = eat_segment-Nearer (record s.conn { pl = terminal }) h
  first_arrow-Nearer (some t) e = arrow_key-Nearer t e

  pick :
      (b : Bool) (x y : Seer)
      → Nearer s.conn x.conn
      → Nearer s.conn y.conn
      → Nearer s.conn (if b then x else y).conn
  pick true x y m n = m
  pick false x y m n = n

  mask_key-Nearer : (c : ℕ) → Nearer s.conn (mask_key c s).conn
  unfolding mask_key
  mask_key-Nearer c = pick (is_print c) _ _ eaten (pick (c == 0o10 || c == 0o177) _ _ eaten eaten)

  navigation_key-Nearer : (o : Option Action) (c : ℕ) → Nearer s.conn (navigation_key o c s).conn
  unfolding navigation_key
  navigation_key-Nearer (some a) c = eaten
  navigation_key-Nearer none c =
      pick (c == esc) _ _ (after_arrow-Nearer (arrow_key s) refl) (pick (c == 0o7) _ _ eaten passed)

  first_key-Nearer : (o : Option Action) (c : ℕ) → Nearer s.conn (first_key o c s).conn
  unfolding first_key
  first_key-Nearer (some a) c = eaten
  first_key-Nearer none c = pick (c == esc) _ _ (first_arrow-Nearer (arrow_key s) refl) (
      pick (c == b'\t') _ _ eaten (
        pick (c == b'\r') _ _ eaten (
          pick (c == 0) _ _ eaten (pick (c == 0o21) _ _ eaten (pick (c == 0o7) _ _ passed eaten)))))

  start_mask-Nearer : (c : ℕ) → Nearer s.conn (start_mask c s).conn
  unfolding start_mask
  start_mask-Nearer c = eaten

  seq_viewglob_all-Nearer : Nearer s.conn (seq_viewglob_all s).0.conn
  unfolding seq_viewglob_all
  seq_viewglob_all-Nearer =
      let c = next_byte s.conn in
      pick s.in_mask _ _ (mask_key-Nearer c) (
        pick s.in_navigation _ _ (navigation_key-Nearer (nav_action c) c) (
          pick (is_print c || (c == 0o10 || c == 0o177)) _ _ (start_mask-Nearer c)
            (first_key-Nearer (nav_action c) c)))

  pub func-Nearer :
      (q : SeqName)
      → (leaves_last q ≡ false) ⊎ (0 < s.conn.seglen)
      → Nearer s.conn (func libs shell q s).0.conn
  unfolding func
  func-Nearer ps1_separator n = unfold seq_pass in passed
  func-Nearer viewglob_all n = seq_viewglob_all-Nearer
  func-Nearer cmd_wrapped n = unfold seq_cmd_wrapped in ground (arith, passed)
  func-Nearer carriage_return n = unfold seq_carriage_return in ground (arith, passed)
  func-Nearer _ n =
      unfold seq_new_pwd seq_zsh_completion_done seq_backspace seq_cursor_forward
        seq_cursor_backward seq_delete_chars seq_insert_blanks seq_erase_in_line seq_cursor_up
        seq_newline seq_pass seq_ctrl_g in
      ground (arith, passed, eaten)
