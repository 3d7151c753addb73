-- ===== src/Display/Items.antt =====
-- vgdisplay/file_box.c: what adding a file changes of the files of the box.
use mathlib.Core.Path.{subst}
use viewglob.Base.{
  ℕ, ◌≡◌, refl, sym, ap, ◌∙◌, Bool, true, false, List, Option, none, some, Bytes, ◌==◌,
  if◌then◌else◌, arith, inl, inr, Bool-cases,
}
use viewglob.ParamIo.{streq}
use viewglob.Vgexpand.{
  FileSelection, fs_yes, fs_no, fs_maybe, FileType, ft_regular, ft_executable, ft_directory,
  ft_blockdev, ft_chardev, ft_fifo, ft_socket, ft_symlink,
}
use viewglob.Display.WrapBox.{insert_child}
use viewglob.Display.Named.{
  find_named, change_named, remove_named, is_named, AreDistinct, AreDistinct-change,
  find-change_self, find-change_other,
}
use viewglob.Display.Lookups.{
  AreDistinct-insert, AreDistinct-remove, is_named-remove_self, find-remove_other, find-insert_self,
  find-insert_other,
}
use viewglob.Display.FileBox.{
  FItem, FileBox, selection_number, type_number, set_changed, update_type, set_selection,
  update_selection, fitem_update_type_selection_and_order,
}

abbrev pub AreNamed : List FItem → Type 0
AreNamed = AreDistinct FItem.name

abbrev pub find : Bytes → List FItem → Option FItem
find = find_named FItem.name

-- Behind a change, the name leads to that file, and other names to what they led to.
abbrev pub Sets : Bytes → FItem → List FItem → List FItem → Type 0
Sets n fi xs ys =
    AreNamed ys × (find n ys ≡ some fi) × ((m : Bytes) → streq n m ≡ false → find m ys ≡ find m xs)

pub Sets-trans :
    (n : Bytes) (x y : FItem) (xs ys zs : List FItem)
    → Sets n x xs ys
    → Sets n y ys zs
    → Sets n y xs zs
Sets-trans n x y xs ys zs (d, p, q) (e, r, s) = (e, r, λ m k. s m k ∙ q m k)

pub change-Sets :
    (n : Bytes) (f : FItem → FItem) (fi : FItem) (xs : List FItem)
    → ((a : FItem) → (f a).name ≡ a.name)
    → AreNamed xs
    → find n xs ≡ some fi
    → Sets n (f fi) xs (change_named FItem.name n f xs)
change-Sets n f fi xs h d e = (
  AreDistinct-change FItem.name n f xs h d,
  find-change_self FItem.name n f xs h
      ∙ ap (λ (o : Option FItem). elim o [ none ↦ none | some a ↦ some (f a) ]) e,
  λ m k. find-change_other FItem.name n m f xs h k,
)

pub new-Sets :
    (r : ℕ) (fi : FItem) (xs : List FItem)
    → AreNamed xs
    → is_named FItem.name fi.name xs ≡ false
    → Sets fi.name fi xs (insert_child r fi xs)
new-Sets r fi xs d k = (
  AreDistinct-insert FItem.name r fi xs k d,
  find-insert_self FItem.name r fi xs k,
  λ m l. find-insert_other FItem.name m r fi xs l,
)

move-Sets :
    (r : ℕ) (fi : FItem) (xs : List FItem)
    → AreNamed xs
    → Sets fi.name fi xs (insert_child r fi (remove_named FItem.name fi.name xs))
move-Sets r fi xs d =
    let k = is_named-remove_self FItem.name fi.name xs d in
    (
      AreDistinct-insert FItem.name r fi (remove_named FItem.name fi.name xs) k
          (AreDistinct-remove FItem.name fi.name xs d),
      find-insert_self FItem.name r fi (remove_named FItem.name fi.name xs) k,
      λ m l.
          find-insert_other FItem.name m r fi (remove_named FItem.name fi.name xs) l
          ∙ find-remove_other FItem.name fi.name m xs l,
    )

of_number : ℕ → FileType
of_number n =
    if n == 0
    then ft_regular
    else if n == 1
    then ft_executable
    else if n == 2
    then ft_directory
    else if n == 3
    then ft_blockdev
    else if n == 4
    then ft_chardev
    else if n == 5
    then ft_fifo
    else if n == 6
    then ft_socket
    else ft_symlink

type_of-type_number : (t : FileType) → of_number (type_number t) ≡ t
unfolding of_number
type_of-type_number ft_regular = refl
type_of-type_number _ = refl

same_type : (t u : FileType) → (type_number t == type_number u) ≡ true → t ≡ u
same_type t u h =
    let e : type_number t ≡ type_number u = ground arith in
    sym (type_of-type_number t) ∙ ap of_number e ∙ type_of-type_number u

selection_of : ℕ → FileSelection
selection_of n = if n == 0 then fs_yes else if n == 1 then fs_no else fs_maybe

selection_of-selection_number : (s : FileSelection) → selection_of (selection_number s) ≡ s
unfolding selection_of
selection_of-selection_number fs_yes = refl
selection_of-selection_number _ = refl

same_selection : (t u : FileSelection) → (selection_number t == selection_number u) ≡ true → t ≡ u
same_selection t u h =
    let e : selection_number t ≡ selection_number u = ground arith in
    sym (selection_of-selection_number t) ∙ ap selection_of e ∙ selection_of-selection_number u

-- The file that a function of the box gives back is the one that the box has now.
abbrev pub Gives : Bytes → FileType → FileSelection → FileBox → FItem × FileBox × ℕ → Type 0
Gives n t s b (fi, c, points) =
    (fi.name ≡ n) × (fi.type ≡ t) × (fi.selection ≡ s) × Sets n fi b.fis c.fis

same-Sets :
    (n : Bytes) (fi : FItem) (xs : List FItem) → AreNamed xs → find n xs ≡ some fi → Sets n fi xs xs
same-Sets n fi xs d e = (d, e, λ m k. refl)

update_type-Gives :
    (fi : FItem) (t : FileType) (r : ℕ) (b : FileBox)
    → AreNamed b.fis
    → find fi.name b.fis ≡ some fi
    → Gives fi.name t fi.selection b (update_type fi t r b)
unfolding update_type
update_type-Gives fi t r b d e = elim (Bool-cases (type_number fi.type == type_number t)) [
  | inl y ↦ rw y (refl, same_type fi.type t y, refl, same-Sets fi.name fi b.fis d e)
  | inr y ↦ rw y (refl, refl, refl, move-Sets r (record fi { type = t; widget = none }) b.fis d)
]

update_selection-Gives :
    (s : FileSelection) (fi : FItem) (b : FileBox) (points : ℕ)
    → AreNamed b.fis
    → find fi.name b.fis ≡ some fi
    → Gives fi.name fi.type s b (update_selection s (fi, b, points))
unfolding update_selection
update_selection-Gives s fi b points d e =
    elim (Bool-cases (selection_number fi.selection == selection_number s)) [
      | inl y ↦ rw y (refl, refl, same_selection fi.selection s y, same-Sets fi.name fi b.fis d e)
      | inr y ↦
          rw y (refl, refl, refl, change-Sets fi.name (set_selection s) fi b.fis (λ a. refl) d e)
    ]

pub set_changed-fis : (fi : FItem) (b : FileBox) → (set_changed fi b).fis ≡ b.fis
set_changed-fis fi b = split b.changed_fi
  where
    split :
        (o : Option Bytes)
        → (let c : FileBox = elim o [
          | none ↦ record b { changed_fi = some fi.name }
          | some n ↦ b
        ] in
            c.fis ≡ b.fis)
    split none = refl
    split (some n) = refl

unless_changed :
    (fi : FItem) (b : FileBox) (x : Bool) → (if x then b else set_changed fi b).fis ≡ b.fis
unless_changed fi b true = refl
unless_changed fi b false = set_changed-fis fi b

-- A file is updated.
pub update-Gives :
    (fi : FItem) (t : FileType) (s : FileSelection) (r : ℕ) (b : FileBox)
    → AreNamed b.fis
    → find fi.name b.fis ≡ some fi
    → Gives fi.name t s b (fitem_update_type_selection_and_order fi t s r b)
unfolding fitem_update_type_selection_and_order
update-Gives fi t s r b d e = both (update_type fi t r b) (update_type-Gives fi t r b d e)
  where
    both :
        (x : FItem × FileBox × ℕ)
        → Gives fi.name t fi.selection b x
        → Gives fi.name t s b (
            let (item, c, points) = update_selection s x in
            (item, (if points == 0 then c else set_changed item c), points))
    both (item, c, points) (n, u, v, (d', e', o)) =
        let (n', u', v', q) =
          update_selection-Gives s item c points d' (ap (λ m. find m c.fis) n ∙ e') in
        let (i, c', points') = update_selection s (item, c, points) in
        (
          n' ∙ n,
          u' ∙ u,
          v',
          subst (λ ys. Sets fi.name i b.fis ys) (sym (unless_changed i c' (points' == 0)))
              (Sets-trans fi.name item i b.fis c.fis c'.fis (d', e', o)
                (subst (λ m. Sets m i c.fis c'.fis) n q)),
        )
