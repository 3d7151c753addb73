-- ===== src/CmdLine/Edit.antt =====
-- vgseer/cmdline.c: the record, and the functions that overwrite, delete and insert characters.
use viewglob.Base.{
  ℕ, zero, suc, ◌+◌, Bool, true, false, [], ◌∷◌, ◌++◌, Option, Bytes, c_string, ◌==◌, ltb, length,
  get_or, set, take, drop, if◌then◌else◌,
}
use viewglob.Base.Int.{ℤ, pos, negsuc}
use viewglob.Libs.{Libs}
use viewglob.Actions.{Action, send_cmd, send_lost, ActionQueue, action_queue}

pub record CmdLine : Type 0 where
  pub text : Bytes  -- `data`
  pub pos : ℕ
  pub rebuilding : Bool
  pub expect_newline : Bool
  pub pwd : Option Bytes
  pub mask : Bytes
  pub mask_final : Bytes
  pub is_utf8 : Bool
  -- the static of `cmd_overwrite_char`
  pub utf8_char : Bytes

pub record Editor : Type 0 where
  pub cmd : CmdLine
  pub queue : ActionQueue

abbrev pub enqueue : Action → Editor → Editor
enqueue a e = record e { queue = (action_queue a e.queue).0 }

abbrev pub with_text : Bytes → ℕ → Editor → Editor
with_text t p e = record e { cmd = record e.cmd { text = t; pos = p } }

abbrev pub with_pos : ℕ → Editor → Editor
with_pos p e = record e { cmd = record e.cmd { pos = p } }

-- `*(cmd->data->str + p)`
abbrev pub byte_at : Bytes → ℕ → ℕ
byte_at t p = get_or t p 0

-- g_string_erase and g_string_insert
abbrev pub string_erase : Bytes → ℕ → ℕ → Bytes
string_erase t p n = take p t ++ drop (p + n) t

abbrev pub string_insert : Bytes → ℕ → Bytes → Bytes
string_insert t p s = take p t ++ (s ++ drop p t)

-- Start over from scratch.
unfoldable pub cmd_clear : Editor → Editor
cmd_clear e = with_text [] 0 e

-- `while (*(cmd->data->str + cmd->pos) == '\015') cmd->pos++;`, over the bytes from there.
skip_carriage_returns : ℕ → Bytes → ℕ
skip_carriage_returns p [] = p
skip_carriage_returns p (c ∷ cs) =
    let rest = skip_carriage_returns (p + 1) cs in if c == b'\r' then rest else p

-- The single-byte branch of `cmd_overwrite_char`.
abbrev overwrite_byte : ℕ → CmdLine → CmdLine
overwrite_byte c d = record d {
  text = if d.pos == length d.text then d.text ++ c ∷ [] else set d.text d.pos c;
  pos = d.pos + 1;
}

module _ (libs : Libs) where
  -- The UTF-8 branch, once the character is complete.
  abbrev overwrite_utf8 : Bytes → CmdLine → CmdLine
  overwrite_utf8 u d = record d {
    text =
        if d.pos == length d.text
        then d.text ++ c_string u
        else string_insert (string_erase d.text d.pos (libs.utf8_next_char (drop d.pos d.text)))
            d.pos (c_string u);
    pos = d.pos + length u;
    utf8_char = [];
  }

  overwrite_in : ℕ → CmdLine → CmdLine
  overwrite_in c d =
      if d.is_utf8
      then (let u = d.utf8_char ++ c ∷ [] in
          if libs.utf8_validate u then overwrite_utf8 u d else record d { utf8_char = u })
      else overwrite_byte c d

  -- It always returns TRUE.
  unfoldable pub cmd_overwrite_char : ℕ → Bool → Editor → Editor
  unfolding overwrite_in skip_carriage_returns
  cmd_overwrite_char c preserve_CR e =
      let d = e.cmd in
      let p = if preserve_CR then skip_carriage_returns d.pos (drop d.pos d.text) else d.pos in
      enqueue send_cmd (record e { cmd = overwrite_in c (record d { pos = p }) })

  -- The loop of the UTF-8 branch of `cmd_del_chars`; `none` where the text has run out.
  del_utf8 : ℕ → ℕ → Bytes → Bytes × Bool
  del_utf8 p zero t = (t, true)
  del_utf8 p (suc n) t =
      let rest = del_utf8 p n (string_erase t p (libs.utf8_next_char (drop p t))) in
      if byte_at t p == 0 then (t, false) else rest

  unfoldable pub cmd_del_chars : ℤ → Editor → Editor × Bool
  unfolding del_utf8
  cmd_del_chars (negsuc _) e = (e, false)
  cmd_del_chars (pos n) e =
      let d = e.cmd in
      if d.is_utf8
      then (let (t, all) = del_utf8 d.pos n d.text in
          if all
          then (enqueue send_cmd (with_text t d.pos e), true)
          else (enqueue send_lost (with_text t d.pos e), false))
      else if ltb (length d.text) (d.pos + n)
      then (enqueue send_lost e, false)
      else (enqueue send_cmd (with_text (string_erase d.text d.pos n) d.pos e), true)

-- The loop of `cmd_insert_chars`.
unfoldable pub insert_times : ℕ → ℕ → ℕ → Bytes → Bytes
insert_times zero c p t = t
insert_times (suc n) c p t = insert_times n c p (string_insert t p (c ∷ []))

unfoldable pub cmd_insert_chars : ℕ → ℤ → Editor → Editor × Bool
unfolding insert_times
cmd_insert_chars c (negsuc _) e = (enqueue send_lost e, false)
cmd_insert_chars c (pos n) e =
    (enqueue send_cmd (with_text (insert_times n c e.cmd.pos e.cmd.text) e.cmd.pos e), true)
