-- ===== src/CmdLine/Move.antt =====
-- vgseer/cmdline.c: the functions that move the cursor, and those that look around it.
use viewglob.Base.{
  ℕ, zero, suc, ◌+◌, ◌-◌, Bool, true, false, ◌&&◌, ◌||◌, [], ◌∷◌, Option, none, some, Bytes, ◌==◌,
  leb, ltb, length, drop, if◌then◌else◌,
}
use viewglob.Base.Int.{ℤ, pos, negsuc}
use viewglob.Libs.{Libs}
use viewglob.CmdLine.Edit.{Editor, with_pos, byte_at}

-- isspace in the C locale
abbrev pub is_space : ℕ → Bool
is_space c = c == b' ' || (leb 9 c && leb c 13)

-- `holdover && strlen(holdover) == 1 && *(holdover) == ' '`
abbrev is_one_space : Option Bytes → Bool
is_one_space none = false
is_one_space (some []) = false
is_one_space (some (c ∷ cs)) = c == b' ' && length cs == 0

module _ (libs : Libs) where
  unfoldable pub cmd_whitespace_to_left : Option Bytes → Editor → Bool
  cmd_whitespace_to_left holdover e =
      let d = e.cmd in
      if d.pos == 0 || is_one_space holdover
      then true
      else if d.is_utf8
      then (elim (libs.utf8_find_prev_char d.text d.pos) [
        | none ↦ false
        | some p ↦ libs.utf8_isspace (drop p d.text)
      ])
      else is_space (byte_at d.text (d.pos - 1))

  unfoldable pub cmd_whitespace_to_right : Editor → Bool
  cmd_whitespace_to_right e =
      let d = e.cmd in
      if d.is_utf8 then libs.utf8_isspace (drop d.pos d.text) else is_space (byte_at d.text d.pos)

  -- The loop of the UTF-8 branch of `cmd_forward`.
  forward_utf8 : ℕ → ℕ → Bytes → Option ℕ
  forward_utf8 zero p t = some p
  forward_utf8 (suc n) p t =
      let rest = forward_utf8 n (p + libs.utf8_next_char (drop p t)) t in
      if byte_at t p == 0 || ltb (length t) p then none else rest

  -- The loop of the UTF-8 branch of `cmd_backward`.
  backward_utf8 : ℕ → ℕ → Bytes → Option ℕ
  backward_utf8 zero p t = some p
  backward_utf8 (suc n) p t = elim (libs.utf8_find_prev_char t p) [
    | none ↦ none
    | some q ↦ backward_utf8 n q t
  ]

  -- Where the cursor would go, if it can.
  forward_to : ℕ → Editor → Option ℕ
  unfolding forward_utf8
  forward_to n e =
      let d = e.cmd in
      if d.is_utf8
      then forward_utf8 n d.pos d.text
      else if leb (d.pos + n) (length d.text)
      then some (d.pos + n)
      else none

  backward_to : ℕ → Editor → Option ℕ
  unfolding backward_utf8
  backward_to n e =
      let d = e.cmd in
      if d.is_utf8
      then backward_utf8 n d.pos d.text
      else if leb n d.pos
      then some (d.pos - n)
      else none

  abbrev move : Bool → Option ℕ → Editor → Editor × Bool
  move do_it none e = (e, false)
  move do_it (some p) e = (if do_it then with_pos p e else e, true)

  unfoldable pub cmd_forward : ℤ → Bool → Editor → Editor × Bool
  unfolding forward_to
  cmd_forward (negsuc _) do_it e = (e, false)
  cmd_forward (pos n) do_it e = move do_it (forward_to n e) e

  unfoldable pub cmd_backward : ℤ → Bool → Editor → Editor × Bool
  unfolding backward_to
  cmd_backward (negsuc _) do_it e = (e, false)
  cmd_backward (pos n) do_it e = move do_it (backward_to n e) e
