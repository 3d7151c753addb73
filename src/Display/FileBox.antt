-- ===== src/Display/FileBox.antt =====
-- vgdisplay/file_box.c: the files that a file box holds. A file is pointed to by its name, which no
-- other file of the box has; a widget is its state and whether it is shown, and is a child of the wrap
-- box under the name of its file.
use viewglob.Base.{
  ℕ, ◌+◌, ◌*◌, Bool, true, false, List, [], ◌∷◌, Option, none, some, Bytes, ltb, ◌==◌,
  if◌then◌else◌, map,
}
use viewglob.ParamIo.{streq}
use viewglob.Vgexpand.{
  FileSelection, fs_yes, fs_no, fs_maybe, FileType, ft_regular, ft_executable, ft_directory,
  ft_blockdev, ft_chardev, ft_fifo, ft_socket, ft_symlink,
}
use viewglob.Display.WrapBox.{WrapBox, insert_child, wrap_box_pack_pos, wrap_box_remove}
use viewglob.Display.Named.{find_named, change_named, remove_named, only}

-- the values of `GtkStateType` that are used
pub data WidgetState : Type 0 where
  state_normal state_active state_selected : WidgetState

pub record ItemWidget : Type 0 where
  pub state : WidgetState
  pub visible : Bool

-- `struct _FItem`
pub record FItem : Type 0 where
  pub widget : Option ItemWidget
  pub name : Bytes
  pub type : FileType
  pub selection : FileSelection
  pub marked : Bool

-- `struct _FileBox`, with whether a resize is queued
pub record FileBox : Type 0 where
  pub wbox : WrapBox Bytes
  pub optimal_width : ℕ
  pub eat_size_requests : Bool
  pub changed_fi : Option Bytes
  pub fis : List FItem
  pub resize_queued : Bool

abbrev pub selection_number : FileSelection → ℕ
selection_number fs_yes = 0
selection_number fs_no = 1
selection_number fs_maybe = 2

abbrev pub type_number : FileType → ℕ
type_number ft_regular = 0
type_number ft_executable = 1
type_number ft_directory = 2
type_number ft_blockdev = 3
type_number ft_chardev = 4
type_number ft_fifo = 5
type_number ft_socket = 6
type_number ft_symlink = 7

abbrev pub selection_to_state : FileSelection → WidgetState
selection_to_state fs_yes = state_selected
selection_to_state fs_maybe = state_active
selection_to_state fs_no = state_normal

-- `file_box_init`, and what `wrap_box_init` leaves of its children
abbrev pub no_items : WrapBox Bytes → FileBox
no_items w = record {
  wbox = w;
  optimal_width = 0;
  eat_size_requests = false;
  changed_fi = none;
  fis = [];
  resize_queued = false;
}

unfoldable pub allow_size_requests : Bool → FileBox → FileBox
allow_size_requests true b =
    if b.eat_size_requests then record b { eat_size_requests = false; resize_queued = true } else b
allow_size_requests false b =
    if b.eat_size_requests then b else record b { eat_size_requests = true }

unfoldable pub file_box_set_optimal_width : FileBox → ℕ → FileBox
file_box_set_optimal_width b width =
    if ltb width (b.wbox.border_width * 2)
    then b
    else if b.optimal_width == width
    then b
    else record b { optimal_width = width; resize_queued = true }

abbrev pub fitem_new : Bytes → FileType → FileSelection → FItem
fitem_new name type selection = record {
  widget = none;
  name = name;
  type = type;
  selection = selection;
  marked = false;
}

abbrev pub unmark : FItem → FItem
unmark fi = record fi { marked = false }

unfoldable pub file_box_begin_read : FileBox → FileBox
unfolding allow_size_requests
file_box_begin_read b =
    allow_size_requests false (record b { fis = map unmark b.fis; changed_fi = none })

-- `file_box_get_display_pos`
abbrev pub display_pos : Bytes → List FItem → ℕ
display_pos n [] = 0
display_pos n (fi ∷ fis) = let pos' = display_pos n fis in if streq fi.name n then 0 else pos' + 1

abbrev pub set_changed : FItem → FileBox → FileBox
set_changed fi b = elim b.changed_fi [ none ↦ record b { changed_fi = some fi.name } | some n ↦ b ]

-- The first half of `fitem_update_type_selection_and_order`: a file of another type loses its widget
-- and is moved.
unfoldable pub update_type : FItem → FileType → ℕ → FileBox → FItem × FileBox × ℕ
unfolding wrap_box_remove
update_type fi t rank b =
    let item : FItem = record fi { type = t; widget = none } in
    if type_number fi.type == type_number t then (fi, b, 0) else (
      item,
      record b {
        wbox = elim fi.widget [ none ↦ b.wbox | some w ↦ wrap_box_remove streq b.wbox fi.name ];
        fis = insert_child rank item (remove_named FItem.name fi.name b.fis);
      },
      2,
    )

abbrev pub set_selection : FileSelection → FItem → FItem
set_selection s fi = record fi {
  selection = s;
  widget = elim fi.widget [
    | none ↦ none
    | some w ↦ some (record w { state = selection_to_state s })
  ];
}

-- The second half.
unfoldable pub update_selection : FileSelection → FItem × FileBox × ℕ → FItem × FileBox × ℕ
update_selection s (fi, b, points) =
    if selection_number fi.selection == selection_number s then (fi, b, points) else (
      set_selection s fi,
      record b { fis = change_named FItem.name fi.name (set_selection s) b.fis },
      points + 1,
    )

unfoldable pub fitem_update_type_selection_and_order :
    FItem → FileType → FileSelection → ℕ → FileBox → FItem × FileBox × ℕ
unfolding update_type update_selection
fitem_update_type_selection_and_order fi t s rank b =
    let (item, c, points) = update_selection s (update_type fi t rank b) in
    (item, (if points == 0 then c else set_changed item c), points)

abbrev pub set_marked : FItem → FItem
set_marked fi = record fi { marked = true }

abbrev pub fitem_build_widgets : FItem → FItem
fitem_build_widgets fi = record fi {
  widget = some (record { state = selection_to_state fi.selection; visible = false });
}

-- The end of `file_box_add`.
unfoldable pub mark_and_pack : FItem → FileBox → FileBox
unfolding wrap_box_pack_pos
mark_and_pack fi b =
    let marked_fis = change_named FItem.name fi.name set_marked b.fis in
    elim fi.widget [
      | some w ↦ record b { fis = marked_fis }
      | none ↦ set_changed fi (record b {
        fis = change_named FItem.name fi.name fitem_build_widgets marked_fis;
        wbox = wrap_box_pack_pos b.wbox fi.name (display_pos fi.name marked_fis);
      })
    ]

-- The box, and the points that the change scores.
unfoldable pub file_box_add : FileBox → Bytes → FileType → FileSelection → ℕ → FileBox × ℕ
unfolding fitem_update_type_selection_and_order mark_and_pack
file_box_add b name type selection rank =
    let new : FItem = fitem_new name type selection in
    elim (find_named FItem.name name b.fis) [
      | some fi ↦
          let (item, c, points) = fitem_update_type_selection_and_order fi type selection rank b in
          (mark_and_pack item c, points)
      | none ↦ (mark_and_pack new (record b { fis = insert_child rank new b.fis }), 2)
    ]

-- The children of files that are not marked are destroyed.
abbrev pub destroy_unmarked : WrapBox Bytes → List FItem → WrapBox Bytes
destroy_unmarked w [] = w
destroy_unmarked w (fi ∷ fis) =
    destroy_unmarked
      (if fi.marked
        then w
        else elim fi.widget [ none ↦ w | some s ↦ wrap_box_remove streq w fi.name ])
      fis

abbrev pub show_widget : FItem → FItem
show_widget fi = record fi {
  widget = elim fi.widget [ none ↦ none | some w ↦ some (record w { visible = true }) ];
}

unfoldable pub file_box_flush : FileBox → FileBox
unfolding allow_size_requests wrap_box_remove
file_box_flush b = allow_size_requests true (record b {
  fis = map show_widget (only FItem.marked b.fis);
  wbox = destroy_unmarked b.wbox b.fis;
})
