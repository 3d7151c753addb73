-- ===== src/Display/Active.antt =====
-- vgdisplay/vgmini.c: the steps of taking a report keep the directories in order: no name is twice
-- among them or in a file box, and the active one is among them.
use mathlib.Core.Path.{subst}
use viewglob.Base.{
  ℕ, ◌≡◌, refl, sym, ap, ◌∙◌, Bool, true, false, ◌||◌, List, [], ◌∷◌, ◌++◌, Option, none, some,
  Bytes, ◌==◌, if◌then◌else◌, map, ltb,
}
use viewglob.ParamIo.{streq}
use viewglob.Display.Named.{
  is_named, AreDistinct, AreDistinct-change, is_named-change, find-change_self,
}
use viewglob.Display.Lookups.{AreDistinct-map, is_named-map, find-none}
use viewglob.Display.Each.{
  Each, Each-map, Each-snoc, Each-change, is_named-snoc, AreDistinct-snoc, find-snoc,
}
use viewglob.Display.FileBox.{FileBox, file_box_set_optimal_width, no_items}
use viewglob.Display.Items.{AreNamed}
use viewglob.Display.Listing.{begin_read_lem}
use viewglob.Display.Mini.{
  DirCont, Vgmini, find_dircont, change_dircont, wrap_box_init, dircont_unmark, unmark_all,
  known_dircont,
}
use viewglob.Display.Process.{new_dircont, active_dircont, add_named}

-- The file box of a directory.
abbrev pub BoxNamed : DirCont → Type 0
BoxNamed dc = AreNamed dc.file_box.fis

abbrev pub ActiveIn : Option Bytes → List DirCont → Type 0
ActiveIn none dcs = Unit {0}
ActiveIn (some n) dcs = is_named DirCont.name n dcs ≡ true

-- No name is twice among the directories or in one of their file boxes, and the active directory is
-- among them.
abbrev pub IsInOrder : Vgmini → Type 0
IsInOrder vg = AreDistinct DirCont.name vg.dcs × Each BoxNamed vg.dcs × ActiveIn vg.active vg.dcs

-- The directory that was added last is marked.
abbrev pub Current : Bytes → Vgmini → Type 0
Current n vg = (dc : DirCont) × (find_dircont n vg ≡ some dc) × (dc.marked ≡ true)

ActiveIn-same :
    (o : Option Bytes) (xs ys : List DirCont)
    → ((n : Bytes) → is_named DirCont.name n ys ≡ is_named DirCont.name n xs)
    → ActiveIn o xs
    → ActiveIn o ys
ActiveIn-same none xs ys h a = tt
ActiveIn-same (some n) xs ys h a = h n ∙ a

pub change-IsInOrder :
    (n : Bytes) (f : DirCont → DirCont) (vg : Vgmini)
    → ((dc : DirCont) → (f dc).name ≡ dc.name)
    → ((dc : DirCont) → BoxNamed dc → BoxNamed (f dc))
    → IsInOrder vg
    → IsInOrder (change_dircont n f vg)
change-IsInOrder n f vg h k (d, e, a) = (
  AreDistinct-change DirCont.name n f vg.dcs h d,
  Each-change DirCont.name BoxNamed n f vg.dcs k e,
  ActiveIn-same vg.active vg.dcs _ (is_named-change DirCont.name n f vg.dcs h) a,
)

pub change-Current :
    (n : Bytes) (f : DirCont → DirCont) (vg : Vgmini) (dc : DirCont)
    → ((dc : DirCont) → (f dc).name ≡ dc.name)
    → find_dircont n vg ≡ some dc
    → (f dc).marked ≡ true
    → Current n (change_dircont n f vg)
change-Current n f vg dc h e k = (
  f dc,
  find-change_self DirCont.name n f vg.dcs h
      ∙ ap (λ (o : Option DirCont). elim o [ none ↦ none | some a ↦ some (f a) ]) e,
  k,
)

pub map-IsInOrder :
    (f : DirCont → DirCont) (vg : Vgmini)
    → ((dc : DirCont) → (f dc).name ≡ dc.name)
    → ((dc : DirCont) → BoxNamed dc → BoxNamed (f dc))
    → IsInOrder vg
    → IsInOrder (record vg { dcs = map f vg.dcs })
map-IsInOrder f vg h k (d, e, a) = (
  AreDistinct-map DirCont.name f vg.dcs h d,
  Each-map BoxNamed f vg.dcs k e,
  ActiveIn-same vg.active vg.dcs _ (λ n. is_named-map DirCont.name f n vg.dcs h) a,
)

pub unmark_all-IsInOrder : (vg : Vgmini) → IsInOrder vg → IsInOrder (unmark_all vg)
unmark_all-IsInOrder vg h = map-IsInOrder dircont_unmark vg (λ dc. refl) (λ dc b. b) h

ActiveIn-snoc :
    (o : Option Bytes) (dc : DirCont) (xs : List DirCont)
    → ActiveIn o xs
    → ActiveIn o (xs ++ dc ∷ [])
ActiveIn-snoc none dc xs a = tt
ActiveIn-snoc (some n) dc xs a =
    is_named-snoc DirCont.name n dc xs ∙ ap (λ b. b || streq dc.name n) a

set_optimal_width-fis : (b : FileBox) (w : ℕ) → (file_box_set_optimal_width b w).fis ≡ b.fis
unfolding file_box_set_optimal_width
set_optimal_width-fis b w = split (ltb w _) (b.optimal_width == w)
  where
    split :
        (x y : Bool)
        → (if x
            then b
            else if y
            then b
            else record b { optimal_width = w; resize_queued = true }).fis
          ≡ b.fis
    split true y = refl
    split false true = refl
    split false false = refl

snoc-IsInOrder :
    (dc : DirCont) (vg : Vgmini)
    → BoxNamed dc
    → is_named DirCont.name dc.name vg.dcs ≡ false
    → IsInOrder vg
    → IsInOrder (record vg { dcs = vg.dcs ++ (dc ∷ []) })
snoc-IsInOrder dc vg b k (d, e, a) = (
  AreDistinct-snoc DirCont.name dc vg.dcs k d,
  Each-snoc BoxNamed dc vg.dcs b e,
  ActiveIn-snoc vg.active dc vg.dcs a,
)

module _ (allocated_width : DirCont → ℕ) where
  -- Adding a directory.
  pub add_named-IsInOrder :
      (vg : Vgmini) (name : Bytes) (is_pwd : Bool) (rank : ℕ) (selected total hidden : Bytes)
      → IsInOrder vg
      → IsInOrder (add_named allocated_width vg name is_pwd rank selected total hidden)
        × Current name (add_named allocated_width vg name is_pwd rank selected total hidden)
  unfolding add_named
  add_named-IsInOrder vg name is_pwd rank selected total hidden h =
      split (find_dircont name vg) refl
    where
      known : DirCont → DirCont
      known = known_dircont rank selected total hidden is_pwd

      new : DirCont
      new =
          new_dircont allocated_width name rank selected total hidden is_pwd
            (active_dircont allocated_width vg)

      split :
          (o : Option DirCont)
          → find_dircont name vg ≡ o
          → (let w : Vgmini = elim o [
            | some dc ↦ change_dircont name known vg
            | none ↦ record vg { dcs = vg.dcs ++ (new ∷ []) }
          ] in
              IsInOrder w × Current name w)
      split none e =
          let k = find-none DirCont.name name vg.dcs e in
          (
            snoc-IsInOrder new vg
                (subst AreNamed (sym (set_optimal_width-fis (no_items wrap_box_init) _)) tt) k h,
            (new, find-snoc DirCont.name new vg.dcs k, refl),
          )
      split (some dc) e = (
        change-IsInOrder name known vg (λ c. refl) (λ c b. (begin_read_lem c.file_box b).0) h,
        change-Current name known vg dc (λ c. refl) e refl,
      )
