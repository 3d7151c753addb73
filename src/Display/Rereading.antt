-- ===== src/Display/Rereading.antt =====
-- vgdisplay/file_box.c: a reading gives the box exactly the files that were read.
use mathlib.Core.Path.{subst}
use viewglob.Base.{
  ℕ, ◌+◌, ◌≡◌, refl, sym, ap, ◌∙◌, Bool, true, false, ◌&&◌, List, [], ◌∷◌, none, some, Bytes,
  if◌then◌else◌, inl, inr, Bool-cases,
}
use viewglob.ParamIo.{streq}
use viewglob.ParamIo.Equal.{streq_equal}
use viewglob.Vgexpand.{File, FileSelection, FileType}
use viewglob.Display.FileBox.{FItem, FileBox, file_box_begin_read, file_box_add}
use viewglob.Display.Items.{AreNamed, find}
use viewglob.Display.Adding.{Adds, file_box_add-Adds}
use viewglob.Display.Listing.{
  add_files, read_again, Listed, or_else, last_given, listed, marked_as, begin_read_lem, flush_lem,
}

-- A file that is added.
add_one :
    (b : FileBox) (t : FileType) (s : FileSelection) (m n : Bytes) (ys : List FItem)
    → Adds m t s b.fis ys
    → marked_as (find n ys) ≡ (if streq m n then some (t, s) else marked_as (find n b.fis))
add_one b t s m n ys (g, u, v, k, (d, e, o)) = elim (Bool-cases (streq m n)) [
  | inl y ↦ rw y (
      ap (λ i. marked_as (find i ys)) (sym (streq_equal m n y))
      ∙ ap marked_as e
      ∙ ap (λ (x : Bool). if x then some (g.type, g.selection) else none) k
      ∙ ap (λ (x : FileType). some (x, g.selection)) u
      ∙ ap (λ (x : FileSelection). some (t, x)) v)
  | inr y ↦ rw y (ap marked_as (o n y))
]

last_then :
    (f : File) (fs : List File) (n : Bytes) (x : Listed)
    → f.shown ≡ true
    → or_else (last_given n fs) (if streq f.name n then some (f.type, f.selected) else x)
      ≡ or_else (last_given n (f ∷ fs)) x
last_then f fs n x k =
    split (last_given n fs) (streq f.name n)
    ∙ sym (
        ap
          (λ (b : Bool).
            or_else
              (or_else (last_given n fs)
                (if b && streq f.name n then some (f.type, f.selected) else none))
              x)
          k)
  where
    split :
        (o : Listed) (c : Bool)
        → or_else o (if c then some (f.type, f.selected) else x)
          ≡ or_else (or_else o (if c then some (f.type, f.selected) else none)) x
    split (some y) c = refl
    split none true = refl
    split none false = refl

or_none : (o : Listed) → or_else o none ≡ o
or_none (some x) = refl
or_none none = refl

last_hidden :
    (f : File) (fs : List File) (n : Bytes)
    → f.shown ≡ false
    → last_given n (f ∷ fs) ≡ last_given n fs
last_hidden f fs n k =
    ap
      (λ (b : Bool).
        or_else (last_given n fs) (if b && streq f.name n then some (f.type, f.selected) else none))
      k
    ∙ or_none (last_given n fs)

add_files_lem :
    (r : ℕ) (fs : List File) (b : FileBox)
    → AreNamed b.fis
    → AreNamed (add_files r fs b).fis
      × ((n : Bytes)
          → marked_as (find n (add_files r fs b).fis)
            ≡ or_else (last_given n fs) (marked_as (find n b.fis)))
add_files_lem r [] b d = (d, λ n. refl)
add_files_lem r (f ∷ fs) b d = elim (Bool-cases f.shown) [
  | inl y ↦
      let added = file_box_add-Adds b f.name f.type f.selected r d in
      let (g, u, v, k, (d', e, o)) = added in
      let (e', h) = add_files_lem (r + 1) fs (file_box_add b f.name f.type f.selected r).0 d' in
      (
        subst
            (λ (x : Bool).
              AreNamed
                (if x
                  then add_files (r + 1) fs (file_box_add b f.name f.type f.selected r).0
                  else add_files r fs b).fis)
            (sym y) e',
        λ n.
            ap
              (λ (x : Bool). marked_as (
                find n
                  (if x
                    then add_files (r + 1) fs (file_box_add b f.name f.type f.selected r).0
                    else add_files r fs b).fis))
              y
            ∙ h n
            ∙ ap (or_else (last_given n fs)) (add_one b f.type f.selected f.name n _ added)
            ∙ last_then f fs n (marked_as (find n b.fis)) y,
      )
  | inr y ↦
      let (e', h) = add_files_lem r fs b d in
      (
        subst
            (λ (x : Bool).
              AreNamed
                (if x
                  then add_files (r + 1) fs (file_box_add b f.name f.type f.selected r).0
                  else add_files r fs b).fis)
            (sym y) e',
        λ n.
            ap
              (λ (x : Bool). marked_as (
                find n
                  (if x
                    then add_files (r + 1) fs (file_box_add b f.name f.type f.selected r).0
                    else add_files r fs b).fis))
              y
            ∙ h n
            ∙ ap (λ (o : Listed). or_else o (marked_as (find n b.fis)))
                (sym (last_hidden f fs n y)),
      )
]

-- Whatever a box held before, with no name twice, when its files are read again it holds each name that
-- is shown among them, with the type and the selection that were given last, no other name, and no
-- name twice.
pub read_again-listed :
    (fs : List File) (b : FileBox)
    → AreNamed b.fis
    → AreNamed (read_again fs b).fis
      × ((n : Bytes) → listed (find n (read_again fs b).fis) ≡ last_given n fs)
read_again-listed fs b d =
    let (e, h) = begin_read_lem b d in
    let (f, k) = add_files_lem 0 fs (file_box_begin_read b) e in
    let (g, l) = flush_lem (add_files 0 fs (file_box_begin_read b)) f in
    (g, λ n. l n ∙ k n ∙ ap (or_else (last_given n fs)) (h n) ∙ or_none (last_given n fs))
