-- ===== src/Display/Clicks.antt =====
-- vgdisplay/file_box.c and vgdisplay/dircont.c: what a double click writes out, and the highlight of a
-- header.
use viewglob.Base.{
  ℕ, Bool, true, false, not, ◌&&◌, [], ◌∷◌, ◌++◌, Option, none, some, Bytes, codes, ◌==◌,
  if◌then◌else◌,
}
use viewglob.ParamIo.{Parameter, p_file}
use viewglob.Vgexpand.{ft_directory}
use viewglob.Display.FileBox.{FItem, type_number}
use viewglob.Display.Mini.{DirCont}

-- The events of GDK that are told apart.
pub data EventType : Type 0 where
  two_button_press enter_notify leave_notify other_event : EventType

abbrev pub is_double : EventType → Bool
is_double two_button_press = true
is_double _ = false

-- `fitem_button_press_event`, with the message that is put
unfoldable pub fitem_button_press_event : EventType → ℕ → FItem → Option (Parameter × Bytes)
fitem_button_press_event event button fi =
    if is_double event && button == 1
    then some (
      p_file,
      fi.name ++ (if type_number fi.type == type_number ft_directory then codes "/" else []),
    )
    else none

abbrev pub last_byte : Bytes → Option ℕ
last_byte [] = none
last_byte (c ∷ []) = some c
last_byte (c ∷ d ∷ cs) = last_byte (d ∷ cs)

-- The message; `none` where the code reads the byte before an empty name.
abbrev pub with_slash : Bytes → Option Bytes
with_slash name = elim (last_byte name) [
  | none ↦ none
  | some c ↦ some (if c == b'/' then name else name ++ codes "/")
]

-- What a click on the header of a directory does.
pub data Click : Type 0 where
  puts : Parameter → Bytes → Click
  nothing : Click
  reads_before : Click

-- `button_press_event`
unfoldable pub button_press_event : EventType → ℕ → DirCont → Click
button_press_event event button dc =
    if is_double event && button == 1
    then elim (with_slash dc.name) [ none ↦ reads_before | some name ↦ puts p_file name ]
    else nothing

abbrev pub highlight : EventType → DirCont → DirCont
highlight enter_notify dc = record dc { is_highlighted = true }
highlight leave_notify dc = record dc { is_highlighted = false }
highlight _ dc = dc

unfoldable pub enter_leave_notify_event : EventType → DirCont → DirCont
enter_leave_notify_event event dc =
    if not dc.is_active && not dc.is_restricted then highlight event dc else dc
