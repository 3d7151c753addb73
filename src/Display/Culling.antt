-- ===== src/Display/Culling.antt =====
-- vgdisplay/vgmini.c: adding a file, and the directories that `cull_dcs` leaves.
use viewglob.Base.{
  ℕ, ◌≡◌, refl, ap, ◌∙◌, Bool, true, false, List, Option, none, some, Bytes, if◌then◌else◌,
}
use viewglob.Display.Named.{find_named, AreDistinct, only}
use viewglob.Display.Lookups.{AreDistinct-only, find-only}
use viewglob.Display.Each.{Each-only, Each-find, find-some}
use viewglob.Vgexpand.{FileType, FileSelection}
use viewglob.Display.FileBox.{file_box_add}
use viewglob.Display.Adding.{file_box_add-Adds}
use viewglob.Display.Mini.{DirCont, Vgmini, find_dircont, change_dircont, score_points, cull_dcs}
use viewglob.Display.Active.{
  BoxNamed, ActiveIn, IsInOrder, Current, change-IsInOrder, change-Current,
}

-- Adding a file to the directory that was added last.
pub add_file-IsInOrder :
    (n : Bytes) (dc : DirCont) (vg : Vgmini) (name : Bytes) (type : FileType)
    (selection : FileSelection) (rank : ℕ)
    → IsInOrder vg
    → find_dircont n vg ≡ some dc
    → dc.marked ≡ true
    → IsInOrder
        (change_dircont n (score_points (file_box_add dc.file_box name type selection rank)) vg)
      × Current n
          (change_dircont n (score_points (file_box_add dc.file_box name type selection rank)) vg)
add_file-IsInOrder n dc vg name type selection rank (d, b, a) e k =
    let x = file_box_add dc.file_box name type selection rank in
    let (g, u, v, w, (d', f, o)) =
      file_box_add-Adds dc.file_box name type selection rank
        (Each-find DirCont.name BoxNamed n vg.dcs dc b e) in
    (
      change-IsInOrder n (score_points x) vg (λ c. refl) (λ c b'. d') (d, b, a),
      change-Current n (score_points x) vg dc (λ c. refl) e k,
    )

cull-ActiveIn :
    (n : Bytes) (dcs : List DirCont)
    → AreDistinct DirCont.name dcs
    → ActiveIn
        (elim (find_named DirCont.name n dcs) [
          | none ↦ none
          | some dc ↦ if dc.marked then some n else none
        ])
        (only DirCont.marked dcs)
cull-ActiveIn n dcs d =
    split (find_named DirCont.name n dcs) (find-only DirCont.name DirCont.marked n dcs d)
  where
    one :
        (dc : DirCont) (b : Bool)
        → find_named DirCont.name n (only DirCont.marked dcs) ≡ (if b then some dc else none)
        → ActiveIn (if b then some n else none) (only DirCont.marked dcs)
    one dc true h = find-some DirCont.name n dc (only DirCont.marked dcs) h
    one dc false h = tt

    split :
        (o : Option DirCont)
        → find_named DirCont.name n (only DirCont.marked dcs)
          ≡ elim o [ none ↦ none | some a ↦ (if a.marked then some a else none) ]
        → ActiveIn
            (elim o [ none ↦ none | some dc ↦ if dc.marked then some n else none ])
            (only DirCont.marked dcs)
    split none h = tt
    split (some dc) h = one dc dc.marked h

pub cull_dcs-IsInOrder : (vg : Vgmini) → IsInOrder vg → IsInOrder (cull_dcs vg)
unfolding cull_dcs
cull_dcs-IsInOrder vg (d, b, a) = (
  AreDistinct-only DirCont.name DirCont.marked vg.dcs d,
  Each-only BoxNamed DirCont.marked vg.dcs b,
  active vg.active,
)
  where
    active :
        (o : Option Bytes)
        → ActiveIn
            (elim o [
              | none ↦ none
              | some n ↦ elim (find_named DirCont.name n vg.dcs) [
                | none ↦ none
                | some dc ↦ if dc.marked then some n else none
              ]
            ])
            (only DirCont.marked vg.dcs)
    active none = tt
    active (some n) = cull-ActiveIn n vg.dcs d

-- The directory that was added last is still there.
pub cull_dcs-find :
    (n : Bytes) (vg : Vgmini)
    → IsInOrder vg
    → Current n vg
    → (dc : DirCont) × (find_dircont n (cull_dcs vg) ≡ some dc)
unfolding cull_dcs
cull_dcs-find n vg (d, b, a) (dc, e, k) = (
  dc,
  find-only DirCont.name DirCont.marked n vg.dcs d
      ∙ ap
          (λ (o : Option DirCont). elim o [
            | none ↦ none
            | some c ↦ (if c.marked then some c else none)
          ])
          e
      ∙ ap (λ (x : Bool). if x then some dc else none) k,
)
