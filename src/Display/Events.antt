-- ===== src/Display/Events.antt =====
-- vgdisplay/vgmini.c: the messages of vgd and the events of the window. Of what they ask of GTK, only
-- the state of the directories is kept: moving the window, scrolling and painting are left out.
use viewglob.Base.{
  ℕ, zero, suc, ◌+◌, ◌-◌, Bool, true, false, List, [], ◌∷◌, Option, none, some, Bytes, codes, leb,
  length, if◌then◌else◌, map,
}
use viewglob.Base.Int.{ℤ, pos, negsuc, is_zero}
use viewglob.ParamIo.{
  Parameter, p_order, p_cmd, p_win_id, p_mask, p_developing_mask, p_status, p_vgexpand_data, p_eof,
  streq,
}
use viewglob.Display.Mini.{
  DirCont, Vgmini, find_dircont, change_dircont, dircont_set_active, dircont_set_optimal_width,
  find_rank,
}
use viewglob.Display.Process.{process_glob_data}

-- `update_dc`
abbrev pub update_dc : Bytes → Bool → Vgmini → Vgmini
update_dc n setting vg = change_dircont n (dircont_set_active setting) vg

-- The directory is activated, and the old one, if any, deactivated.
unfoldable pub activate : Bytes → Vgmini → Vgmini
activate n vg =
    let shown = update_dc n true vg in
    record (elim vg.active as (λ o. Vgmini) [
      | none ↦ shown
      | some old ↦ update_dc old false shown
    ]) { active = some n }

-- A click on the header of a directory, which belongs to it alone.
unfoldable pub button_release_event : Bytes → Vgmini → Vgmini
unfolding activate
button_release_event n vg = elim (find_dircont n vg) [
  | none ↦ vg
  | some dc ↦
      let is_active = elim vg.active as (λ o. Bool) [ none ↦ false | some a ↦ streq a dc.name ] in
      if is_active then vg else activate dc.name vg
]

-- The ranks from one on that `activate_dc` looks at, up to a directory that is not restricted. The
-- result is `none` when there are more of them than the number that is given.
abbrev pub search_down : ℕ → ℕ → List DirCont → Option (Option Bytes)
search_down zero rank dcs = none
search_down (suc n) rank dcs =
    let further = search_down n (rank + 1) dcs in
    elim (find_rank rank dcs) [
      | none ↦ some none
      | some dc ↦ if dc.is_restricted then further else some (some dc.name)
    ]

-- The ranks below one.
abbrev pub search_up : ℕ → List DirCont → Option Bytes
search_up zero dcs = none
search_up (suc rank) dcs =
    let further = search_up rank dcs in
    elim (find_rank rank dcs) [
      | none ↦ none
      | some dc ↦ if dc.is_restricted then further else some dc.name
    ]

abbrev pub search : Bool → ℤ → List DirCont → Option (Option Bytes)
search true (pos rank) dcs = search_down (suc (length dcs)) (rank + 1) dcs
search true (negsuc zero) dcs = search_down (suc (length dcs)) 0 dcs
search true (negsuc (suc n)) dcs = some none
search false (pos rank) dcs = some (search_up rank dcs)
search false (negsuc n) dcs = some none

abbrev pub activate_found : Vgmini → Option Bytes → Vgmini
activate_found vg none = vg
activate_found vg (some n) = activate n vg

-- `none` where the active directory is not there, or the search goes on.
unfoldable pub activate_dc : Bool → Vgmini → Option Vgmini
unfolding activate
activate_dc next vg = elim vg.active [
  | none ↦ some vg
  | some n ↦ elim (find_dircont n vg) [
    | none ↦ none
    | some dc ↦ elim (search next dc.rank vg.dcs) [
      | none ↦ none
      | some found ↦ some (activate_found vg found)
    ]
  ]
]

-- The orders pgup and pgdown scroll.
unfoldable pub do_nav : Bytes → Vgmini → Option Vgmini
unfolding activate_dc
do_nav order vg =
    if streq order (codes "up")
    then activate_dc false vg
    else if streq order (codes "down")
    then activate_dc true vg
    else some vg

abbrev pub sub_int : ℕ → ℕ → ℤ
sub_int a b = if leb b a then pos (a - b) else negsuc (b - a - 1)

abbrev pub add_int : ℤ → ℤ → ℤ
add_int (pos a) (pos b) = pos (a + b)
add_int (pos a) (negsuc b) = sub_int a (b + 1)
add_int (negsuc a) (pos b) = sub_int b (a + 1)
add_int (negsuc a) (negsuc b) = negsuc (a + b + 1)

-- `window_configure_event`, with the width of the event and the one that is allocated
unfoldable pub window_configure_event : ℕ → ℕ → Vgmini → Vgmini
window_configure_event width allocated vg = record vg {
  width_change = add_int vg.width_change (sub_int width allocated);
}

-- A width below 0 is refused.
abbrev pub set_width : ℤ → DirCont → DirCont
set_width (pos width) dc = dircont_set_optimal_width width dc
set_width (negsuc n) dc = dc

abbrev pub widen : ℤ → DirCont → DirCont
widen change dc = set_width (add_int (pos dc.optimal_width) change) dc

unfoldable pub window_allocate_event : Vgmini → Vgmini
window_allocate_event vg =
    if is_zero vg.width_change
    then vg
    else record vg { dcs = map (widen vg.width_change) vg.dcs; width_change = pos 0 }

-- What a message leads to; a directory that is not there, or a reading beyond the end, crashes it.
pub data Receipt : Type 0 where
  showing : Vgmini → Receipt
  exits_success exits_failure crashed : Receipt

abbrev pub or_crashed : Option Vgmini → Receipt
or_crashed none = crashed
or_crashed (some vg) = showing vg

-- `utf8` is `g_filename_to_utf8`.
module _ (allocated_width : DirCont → ℕ) (utf8 : Bytes → Bytes) where
  unfoldable pub set_cmd : Vgmini → Bytes → Vgmini
  set_cmd vg string = record vg { cmdline = utf8 string }

  abbrev pub empty_or : Vgmini → Bytes → Receipt
  empty_or vg [] = showing vg
  empty_or vg (c ∷ cs) = or_crashed (process_glob_data allocated_width (c ∷ cs) vg)

  -- `receive_data`, with what `get_param` read
  unfoldable pub receive_data : Option (Parameter × Bytes) → Vgmini → Receipt
  unfolding set_cmd do_nav process_glob_data
  receive_data none vg = exits_failure
  receive_data (some (p_order, value)) vg =
      if streq value (codes "refocus") then showing vg else or_crashed (do_nav value vg)
  receive_data (some (p_cmd, value)) vg = showing (set_cmd vg value)
  receive_data (some (p_win_id, value)) vg = showing (record vg { term_win = value })
  receive_data (some (p_mask, value)) vg = showing vg
  receive_data (some (p_developing_mask, value)) vg = showing vg
  receive_data (some (p_status, value)) vg = showing vg
  receive_data (some (p_vgexpand_data, value)) vg = empty_or vg value
  receive_data (some (p_eof, value)) vg = exits_success
  receive_data (some (_, value)) vg = exits_failure

  abbrev pub receive_next : Receipt → Option (Parameter × Bytes) → Receipt
  receive_next (showing vg) m = receive_data m vg
  receive_next r m = r

  -- The messages, one after the other.
  abbrev pub receive_each : List (Option (Parameter × Bytes)) → Receipt → Receipt
  receive_each [] r = r
  receive_each (m ∷ ms) r = receive_each ms (receive_next r m)
