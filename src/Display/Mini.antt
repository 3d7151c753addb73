-- ===== src/Display/Mini.antt =====
-- vgdisplay/vgmini.c and vgdisplay/dircont.c: the directories that the display keeps. A directory is
-- pointed to by its name, which no other has. What GTK draws and packs is left out.
use viewglob.Base.{
  ℕ, zero, suc, ◌+◌, ◌-◌, Bool, true, false, ◌&&◌, List, [], ◌∷◌, Option, none, some, Bytes, codes,
  ltb, leb, ◌==◌, if◌then◌else◌, map, length,
}
use viewglob.Base.Int.{ℤ, pos, negsuc}
use viewglob.ParamIo.{streq}
use viewglob.Display.WrapBox.{WrapBox}
use viewglob.Display.Named.{find_named, change_named, only}
use viewglob.Display.FileBox.{
  FileBox, no_items, file_box_begin_read, file_box_set_optimal_width, file_box_flush,
}

-- `struct _DirCont`
pub record DirCont : Type 0 where
  pub optimal_width : ℕ
  pub name : Bytes
  pub rank : ℤ
  pub old_rank : ℤ
  pub marked : Bool
  pub selected : Bytes
  pub total : Bytes
  pub hidden : Bytes
  pub file_box : FileBox
  pub is_pwd : Bool
  pub is_restricted : Bool
  pub is_active : Bool
  pub is_highlighted : Bool
  pub score : ℤ

-- `struct vgmini`, with the title of its window
pub record Vgmini : Type 0 where
  pub title : Bytes
  pub width_change : ℤ
  pub cmdline : Bytes
  pub dcs : List DirCont
  pub active : Option Bytes
  pub term_win : Bytes
  pub jump_resize : Bool

abbrev pub find_dircont : Bytes → Vgmini → Option DirCont
find_dircont n vg = find_named DirCont.name n vg.dcs

abbrev pub change_dircont : Bytes → (DirCont → DirCont) → Vgmini → Vgmini
change_dircont n f vg = record vg { dcs = change_named DirCont.name n f vg.dcs }

abbrev pub add_score : ℤ → ℕ → ℤ
add_score (pos n) points = pos (n + points)
add_score (negsuc n) points = if ltb n points then pos (points - (n + 1)) else negsuc (n - points)

abbrev pub leb_score : ℤ → ℤ → Bool
leb_score (pos a) (pos b) = leb a b
leb_score (pos a) (negsuc b) = false
leb_score (negsuc a) (pos b) = true
leb_score (negsuc a) (negsuc b) = leb b a

-- `wrap_box_init`, and what `dircont_init` sets of the file box
abbrev pub wrap_box_init : WrapBox Bytes
wrap_box_init = record {
  border_width = 2;
  hspacing = 3;
  vspacing = 0;
  n_children = 0;
  children = [];
  child_limit = 32767;
}

abbrev pub dircont_init : DirCont
dircont_init = record {
  optimal_width = 0;
  name = codes "<unset>";
  rank = negsuc 0;
  old_rank = negsuc 0;
  marked = false;
  selected = codes "0";
  total = codes "0";
  hidden = codes "0";
  file_box = no_items wrap_box_init;
  is_pwd = false;
  is_restricted = true;
  is_active = false;
  is_highlighted = false;
  score = pos 0;
}

abbrev pub dircont_set_counts : Bytes → Bytes → Bytes → DirCont → DirCont
dircont_set_counts selected total hidden dc = record dc {
  selected = selected;
  total = total;
  hidden = hidden;
  is_restricted =
      if streq total dc.total && streq selected dc.selected
      then dc.is_restricted
      else streq total (codes "0");
}

abbrev pub dircont_mark : ℕ → DirCont → DirCont
dircont_mark rank dc = record dc { marked = true; old_rank = dc.rank; rank = pos rank }

abbrev pub dircont_is_new : DirCont → Bool
dircont_is_new dc = elim dc.old_rank [ negsuc n ↦ true | pos n ↦ false ]

abbrev pub dircont_set_active : Bool → DirCont → DirCont
dircont_set_active setting dc = record dc {
  is_active = setting;
  is_highlighted = if setting then false else dc.is_highlighted;
}

abbrev pub dircont_set_optimal_width : ℕ → DirCont → DirCont
dircont_set_optimal_width width dc = record dc {
  optimal_width = width;
  file_box = file_box_set_optimal_width dc.file_box width;
}

abbrev pub dircont_unmark : DirCont → DirCont
dircont_unmark dc = record dc { marked = false; score = pos 0 }

-- `unmark_all_dirconts`
abbrev pub unmark_all : Vgmini → Vgmini
unmark_all vg = record vg { dcs = map dircont_unmark vg.dcs }

-- A directory that is known already.
abbrev pub known_dircont : ℕ → Bytes → Bytes → Bytes → Bool → DirCont → DirCont
known_dircont rank selected total hidden is_pwd dc =
    let c : DirCont =
      dircont_mark rank
        (record (dircont_set_counts selected total hidden dc) { is_pwd = is_pwd }) in
    record c { file_box = file_box_begin_read c.file_box }

-- Points for files that are new or changed.
abbrev pub score_points : FileBox × ℕ → DirCont → DirCont
score_points (b, points) dc = record dc { file_box = b; score = add_score dc.score points }

-- A directory that is left behind `cull_dcs`, which forgets the active one with its directory.
unfoldable pub cull_dcs : Vgmini → Vgmini
cull_dcs vg = record vg {
  dcs = only DirCont.marked vg.dcs;
  active = elim vg.active [
    | none ↦ none
    | some n ↦ elim (find_dircont n vg) [
      | none ↦ none
      | some dc ↦ if dc.marked then some n else none
    ]
  ];
}

abbrev pub has_rank : ℕ → DirCont → Bool
has_rank r dc = elim dc.rank [ pos n ↦ n == r | negsuc n ↦ false ]

-- `g_slist_find_custom` with `cmp_dircont_same_rank`
abbrev pub find_rank : ℕ → List DirCont → Option DirCont
find_rank r [] = none
find_rank r (dc ∷ dcs) = if has_rank r dc then some dc else find_rank r dcs

-- The files of a directory are committed, and a restricted directory cannot be active.
abbrev pub dircont_commit : DirCont → DirCont
dircont_commit dc = record dc {
  file_box = file_box_flush dc.file_box;
  score = if dc.is_restricted then negsuc 0 else dc.score;
}

abbrev pub score_of : Option DirCont → ℤ
score_of none = pos 0
score_of (some dc) = dc.score

-- The loop over the ranks of `rearrange_and_show`, with the directory of the highest score so far.
-- It is `none` when more ranks are there than the number that is given.
unfoldable pub arrange : ℕ → ℕ → Bytes → List DirCont → Option (Bytes × List DirCont)
arrange zero next_rank highest dcs = none
arrange (suc n) next_rank highest dcs = elim (find_rank next_rank dcs) [
  | none ↦ some (highest, dcs)
  | some dc ↦
      let committed = change_named DirCont.name dc.name dircont_commit dcs in
      arrange n (next_rank + 1)
        (if leb_score (score_of (find_named DirCont.name highest committed))
            (dircont_commit dc).score
          then dc.name
          else highest)
        committed
]

abbrev pub update_active : Bytes → DirCont → DirCont
update_active n dc = dircont_set_active (streq dc.name n) dc

-- The end of `rearrange_and_show`.
unfoldable pub activate_highest : Vgmini → Bytes → List DirCont → Vgmini
activate_highest vg highest dcs =
    let active = elim vg.active as (λ o. Bytes) [
      | none ↦ highest
      | some n ↦
          if leb_score (score_of (find_named DirCont.name highest dcs))
            (score_of (find_named DirCont.name n dcs))
          then n
          else highest
    ] in
    record vg { active = some active; dcs = map (update_active active) dcs }

-- `none` where it reads the first directory of none.
unfoldable pub rearrange_and_show : Vgmini → Option Vgmini
unfolding arrange activate_highest
rearrange_and_show vg = elim vg.dcs [
  | [] ↦ none
  | dc ∷ dcs ↦ elim (arrange (suc (length vg.dcs)) 0 dc.name vg.dcs) [
    | none ↦ none
    | some (highest, dcs) ↦ some (activate_highest vg highest dcs)
  ]
]
