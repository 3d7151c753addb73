-- ===== src/CmdLine/Mask.antt =====
-- vgseer/cmdline.c: the mask that is typed after Ctrl-G.
use viewglob.Base.{◌-◌, ℕ, Bool, ◌&&◌, [], ◌∷◌, ◌++◌, leb, ltb, length, take, if◌then◌else◌}
use viewglob.Actions.{new_mask}
use viewglob.CmdLine.Edit.{Editor, enqueue}

-- isprint in the C locale
abbrev pub is_print : ℕ → Bool
is_print c = leb b' ' c && leb c b'~'

unfoldable pub cmd_mask_add : ℕ → Editor → Editor
cmd_mask_add c e =
    if is_print c && ltb (length e.cmd.mask) 50
    then enqueue new_mask (record e { cmd = record e.cmd { mask = e.cmd.mask ++ c ∷ [] } })
    else e

unfoldable pub cmd_mask_clear : Editor → Editor
cmd_mask_clear e = enqueue new_mask (record e { cmd = record e.cmd { mask = [] } })

unfoldable pub cmd_mask_del : Editor → Editor
cmd_mask_del e =
    let m = e.cmd.mask in
    if ltb 0 (length m)
    then enqueue new_mask (record e { cmd = record e.cmd { mask = take (length m - 1) m } })
    else e
