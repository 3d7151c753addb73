-- ===== src/Display/Listing.antt =====
-- vgdisplay/file_box.c: what a box holds behind a whole reading of its files, from
-- `file_box_begin_read` to `file_box_flush`.
use mathlib.Core.Path.{subst}
use viewglob.Base.{
  ℕ, ◌+◌, ◌≡◌, refl, sym, ap, ◌∙◌, Bool, true, false, ◌&&◌, List, [], ◌∷◌, Option, none, some,
  Bytes, if◌then◌else◌, map,
}
use viewglob.ParamIo.{streq}
use viewglob.Vgexpand.{File, FileSelection, FileType}
use viewglob.Display.Named.{only}
use viewglob.Display.Lookups.{AreDistinct-map, AreDistinct-only, find-map, find-only}
use viewglob.Display.FileBox.{
  FItem, FileBox, allow_size_requests, unmark, file_box_begin_read, file_box_add, show_widget,
  file_box_flush,
}
use viewglob.Display.Items.{AreNamed, find}

-- The files of a directory, added one after the other, with their ranks.
abbrev pub add_files : ℕ → List File → FileBox → FileBox
add_files r [] b = b
add_files r (f ∷ fs) b =
    let more = add_files (r + 1) fs (file_box_add b f.name f.type f.selected r).0 in
    let same = add_files r fs b in if f.shown then more else same

-- From the beginning of a reading to the end.
abbrev pub read_again : List File → FileBox → FileBox
read_again fs b = file_box_flush (add_files 0 fs (file_box_begin_read b))

abbrev pub Listed : Type 0
Listed = Option (FileType × FileSelection)

abbrev pub or_else : Listed → Listed → Listed
or_else (some x) y = some x
or_else none y = y

-- What a name was when it was last given.
abbrev pub last_given : Bytes → List File → Listed
last_given n [] = none
last_given n (f ∷ fs) =
    or_else (last_given n fs)
      (if f.shown && streq f.name n then some (f.type, f.selected) else none)

abbrev pub listed : Option FItem → Listed
listed none = none
listed (some fi) = some (fi.type, fi.selection)

-- The same, of files that are marked.
abbrev pub marked_as : Option FItem → Listed
marked_as none = none
marked_as (some fi) = if fi.marked then some (fi.type, fi.selection) else none

allow-fis : (a : Bool) (b : FileBox) → (allow_size_requests a b).fis ≡ b.fis
unfolding allow_size_requests
allow-fis true b = split b.eat_size_requests
  where
    split :
        (x : Bool)
        → (if x then record b { eat_size_requests = false; resize_queued = true } else b).fis
          ≡ b.fis
    split true = refl
    split false = refl
allow-fis false b = split b.eat_size_requests
  where
    split : (x : Bool) → (if x then b else record b { eat_size_requests = true }).fis ≡ b.fis
    split true = refl
    split false = refl

pub begin_read_lem :
    (b : FileBox)
    → AreNamed b.fis
    → AreNamed (file_box_begin_read b).fis
      × ((n : Bytes) → marked_as (find n (file_box_begin_read b).fis) ≡ none)
unfolding file_box_begin_read
begin_read_lem b d =
    subst (λ (ys : List FItem). AreNamed ys × ((n : Bytes) → marked_as (find n ys) ≡ none))
      (sym (allow-fis false (record b { fis = map unmark b.fis; changed_fi = none })))
      (
        AreDistinct-map FItem.name unmark b.fis (λ a. refl) d,
        λ n. ap marked_as (find-map FItem.name unmark n b.fis (λ a. refl)) ∙ gone (find n b.fis),
      )
  where
    gone : (o : Option FItem) → marked_as (elim o [ none ↦ none | some a ↦ some (unmark a) ]) ≡ none
    gone none = refl
    gone (some a) = refl

pub flush_lem :
    (b : FileBox)
    → AreNamed b.fis
    → AreNamed (file_box_flush b).fis
      × ((n : Bytes) → listed (find n (file_box_flush b).fis) ≡ marked_as (find n b.fis))
unfolding file_box_flush
flush_lem b d =
    subst
      (λ (ys : List FItem).
        AreNamed ys × ((n : Bytes) → listed (find n ys) ≡ marked_as (find n b.fis)))
      (sym (allow-fis true _))
      (
        AreDistinct-map FItem.name show_widget (only FItem.marked b.fis) (λ a. refl)
            (AreDistinct-only FItem.name FItem.marked b.fis d),
        λ n.
            ap listed (
              find-map FItem.name show_widget n (only FItem.marked b.fis) (λ a. refl)
              ∙ ap (λ (o : Option FItem). elim o [ none ↦ none | some a ↦ some (show_widget a) ])
                  (find-only FItem.name FItem.marked n b.fis d))
            ∙ seen (find n b.fis),
      )
  where
    one :
        (a : FItem) (x : Bool)
        → listed (elim (if x then some a else none) as (λ o. Option FItem) [
          | none ↦ none
          | some c ↦ some (show_widget c)
        ])
          ≡ (if x then some (a.type, a.selection) else none)
    one a true = refl
    one a false = refl

    seen :
        (o : Option FItem)
        → listed
            (elim (elim o as (λ p. Option FItem) [
              | none ↦ none
              | some a ↦ (if a.marked then some a else none)
            ])
              as (λ p. Option FItem) [ none ↦ none | some c ↦ some (show_widget c) ])
          ≡ marked_as o
    seen none = refl
    seen (some a) = one a a.marked
