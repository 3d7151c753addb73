-- ===== src/Sequences/Navigation.antt =====
-- vgseer/sequences.c: the keys of Viewglob mode, `seq_viewglob_all` and `arrow_key`.
use viewglob.Base.{
  ℕ, zero, suc, ◌+◌, ◌-◌, Bool, true, false, ◌&&◌, ◌||◌, List, [], ◌∷◌, Option, none, some, Bytes,
  codes, c_string, ◌==◌, leb, length, drop, get_or, if◌then◌else◌,
}
use viewglob.Actions.{
  Action, send_cmd, send_up, send_down, send_pgup, send_pgdown, toggle, refocus, disable,
}
use viewglob.CmdLine.Edit.{Editor, enqueue}
use viewglob.CmdLine.Mask.{is_print, cmd_mask_add, cmd_mask_clear, cmd_mask_del}
use viewglob.Connection.{Connection, terminal, next_byte}
use viewglob.Sequences.Pattern.{esc}
use viewglob.Sequences.State.{MatchEffect, me_no_effect, Seer, set_pl, passing, eating}

-- `strncmp(a, b, n) == 0`
unfoldable pub strneq : ℕ → Bytes → Bytes → Bool
strneq zero a b = true
strneq (suc n) a b =
    let rest = strneq n (drop 1 a) (drop 1 b) in
    let c = get_or a 0 0 in if c == get_or b 0 0 then (if c == 0 then true else rest) else false

-- The table `navs`.
unfoldable pub navs : List (Bytes × Action)
navs =
    (esc ∷ codes "[A", send_up)
    ∷ (esc ∷ codes "Oa", send_up)
    ∷ (esc ∷ codes "[B", send_down)
    ∷ (esc ∷ codes "Ob", send_down)
    ∷ (esc ∷ codes "[5~", send_pgup)
    ∷ (esc ∷ codes "[5^", send_pgup)
    ∷ (esc ∷ codes "[6~", send_pgdown)
    ∷ (esc ∷ codes "[6^", send_pgdown)
    ∷ []

-- The loop over the table: the key that the bytes begin with.
unfoldable pub find_key : List (Bytes × Action) → ℕ → Bytes → Option (Bytes × Action)
unfolding strneq
find_key [] max_len start = none
find_key ((keys, a) ∷ rest) max_len start =
    if leb (length keys) max_len && strneq max_len start keys
    then some (keys, a)
    else find_key rest max_len start

abbrev lengthen : ℕ → Connection → Connection
lengthen n b = record b { seglen = b.seglen + n }

-- The segment is extended over the key, and the key's action is queued; `none` is FALSE.
unfoldable pub arrow_key : Seer → Option Seer
unfolding find_key navs
arrow_key s =
    let b = s.conn in
    elim (find_key navs (b.filled - b.pos) (drop b.pos b.buf)) [
      | none ↦ none
      | some (keys, a) ↦
          some (record s { conn = lengthen (length keys - 1) b; editor = enqueue a s.editor })
    ]

abbrev to_terminal : Seer → Seer
to_terminal = set_pl terminal

abbrev in_nav : Bool → Seer → Seer
in_nav on s = record s { in_navigation = on }

abbrev masking : Bool → Seer → Seer
masking on s = record s { in_mask = on }

-- `g_string_assign(cmd->mask_final, cmd->mask->str)`
abbrev submit_mask : Editor → Editor
submit_mask e = record e { cmd = record e.cmd { mask_final = c_string e.cmd.mask } }

abbrev is_erase : ℕ → Bool
is_erase c = c == 0o10 || c == 0o177

-- The keys that move in the display, vi's and emacs's, but for the arrows.
unfoldable pub nav_action : ℕ → Option Action
nav_action c =
    if c == 0o13 || c == 0o20
    then some send_up
    else if c == 0o12 || c == 0o16
    then some send_down
    else if c == 0o2 || c == 0o25
    then some send_pgup
    else if c == 0o6 || c == 0o4
    then some send_pgdown
    else none

-- `if (in_mask)`
unfoldable pub mask_key : ℕ → Seer → Seer
mask_key c s =
    if is_print c
    then eating s (cmd_mask_add c s.editor)
    else if is_erase c
    then eating s (cmd_mask_del s.editor)
    else (let e =
          if c == b'\r' then enqueue send_cmd (submit_mask s.editor) else cmd_mask_clear s.editor in
        masking false (to_terminal (eating s e)))

-- The end of navigation by another key, which goes to the terminal.
abbrev pub leave : Seer → Seer
leave s = to_terminal (in_nav false (passing s s.editor))

abbrev pub after_arrow : Option Seer → Seer → Seer
after_arrow none s = leave s
after_arrow (some t) s = eating t t.editor

-- `else if (in_navigation)`, by the action that the key has, if any
unfoldable pub navigation_key : Option Action → ℕ → Seer → Seer
navigation_key (some a) c s = eating s (enqueue a s.editor)
navigation_key none c s =
    if c == esc
    then after_arrow (arrow_key s) s
    else if c == 0o7
    then in_nav false (eating s s.editor)
    else leave s

-- `else if (isprint(c) || c == '\010' || c == '\177')`
unfoldable pub start_mask : ℕ → Seer → Seer
start_mask c s =
    let e = cmd_mask_clear s.editor in
    masking true (eating s (if is_erase c then e else cmd_mask_add c e))

abbrev pub first_arrow : Option Seer → Seer → Seer
first_arrow none s = eating (to_terminal s) s.editor
first_arrow (some t) s = in_nav true (eating t t.editor)

-- A key that is eaten and ends Viewglob mode.
abbrev done_with : Editor → Seer → Seer
done_with e s = to_terminal (eating s e)

-- The last `switch`: the first key after Ctrl-G, by the action that it has, if any.
unfoldable pub first_key : Option Action → ℕ → Seer → Seer
first_key (some a) c s = in_nav true (eating s (enqueue a s.editor))
first_key none c s =
    if c == esc
    then first_arrow (arrow_key s) s
    else if c == b'\t'
    then done_with (enqueue refocus s.editor) s
    else if c == b'\r'
    then done_with (enqueue send_cmd (submit_mask (cmd_mask_clear s.editor))) s
    else if c == 0
    then done_with (enqueue toggle s.editor) s
    else if c == 0o21
    then done_with (enqueue disable s.editor) s
    else if c == 0o7
    then to_terminal (passing s s.editor)
    else done_with s.editor s

unfoldable pub seq_viewglob_all : Seer → Seer × MatchEffect
seq_viewglob_all s =
    let c = next_byte s.conn in
    (
      if s.in_mask
          then mask_key c s
          else if s.in_navigation
          then navigation_key (nav_action c) c s
          else if is_print c || is_erase c
          then start_mask c s
          else first_key (nav_action c) c s,
      me_no_effect,
    )
