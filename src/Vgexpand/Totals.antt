-- ===== src/Vgexpand/Totals.antt =====
-- vgexpand/vgexpand.c: the counts of all directories, from `compile_data` to `mask_match`.
use mathlib.Core.Path.{subst}
use viewglob.Base.{ℕ, ◌≡◌, true, false, List, [], ◌∷◌, Option, none, some, Bytes, if-cases}
use viewglob.Vgexpand.{
  File, Directory, System, Order, mark, make_new_dir, correlate, correlate_at, take_arguments,
  initiate, compile_data, mask_match, compare_by_inode,
}
use viewglob.Vgexpand.Path.{normalize_path, vg_dirname, vg_basename, has_trailing_slash}
use viewglob.Vgexpand.Split.{Mask}
use viewglob.Vgexpand.Counts.{IsMarked, IsCounted, foreach-IsMarked, masked-IsCounted}
use viewglob.Vgexpand.Entries.{SystemLaws, make_new_dir-IsMarked}

abbrev pub AllCounted : List Directory → Type 0
AllCounted [] = Unit {0}
AllCounted (d ∷ ds) = IsCounted d × AllCounted ds

abbrev AllMarked : List Directory → Type 0
AllMarked [] = Unit {0}
AllMarked (d ∷ ds) = IsMarked d × AllMarked ds

masked_all :
    (sys : System) (masks : List Mask) (ds : List Directory)
    → AllMarked ds
    → AllCounted (mask_match sys masks ds)
unfolding mask_match
masked_all sys masks [] m = tt
masked_all sys masks (d ∷ ds) (m, ms) = (masked-IsCounted sys masks d m, masked_all sys masks ds ms)

module _ (sys : System) (filename_cmp : File → File → Order) (pwd : Bytes)
    (laws : SystemLaws sys filename_cmp) where
  mark-IsMarked :
      (o : Option Bytes) (d : Directory) → IsMarked d → IsMarked (mark sys filename_cmp pwd o d)
  mark-IsMarked none d m = m
  mark-IsMarked (some lookup) d m = foreach-IsMarked lookup d m

  correlate_marked :
      (name : Bytes) (o : Option Bytes) (dev inode : ℕ) (ds : List Directory)
      → AllMarked ds
      → AllMarked (correlate sys filename_cmp pwd name o dev inode ds)
  unfolding correlate
  correlate_marked name o dev inode [] m =
      (mark-IsMarked o _ (make_new_dir-IsMarked sys filename_cmp pwd laws name dev inode), tt)
  correlate_marked name o dev inode (d ∷ ds) (m, ms) =
      if-cases AllMarked (compare_by_inode dev inode d.dev_id d.inode)
        (λ _. (mark-IsMarked o d m, ms)) (λ _. (m, correlate_marked name o dev inode ds ms))

  correlate_at_marked :
      (name : Bytes) (o : Option Bytes) (ds : List Directory)
      → AllMarked ds
      → AllMarked (correlate_at sys filename_cmp pwd name o ds)
  correlate_at_marked name o ds m = by_stat (sys.stat name)
    where
      by_stat :
          (r : Option (ℕ × ℕ))
          → AllMarked (elim r [
            | none ↦ ds
            | some (dev, inode) ↦ correlate sys filename_cmp pwd name o dev inode ds
          ])
      by_stat none = m
      by_stat (some (dev, inode)) = correlate_marked name o dev inode ds m

  take_arguments_marked :
      (args : List Bytes) (ds : List Directory)
      → AllMarked ds
      → AllMarked (take_arguments sys filename_cmp pwd args ds)
  take_arguments_marked [] ds m = m
  take_arguments_marked (a ∷ others) ds m = take_arguments_marked others _ (
      if-cases AllMarked (has_trailing_slash a)
        (λ _. correlate_at_marked (vg_dirname pwd (normalize_path a false)) none _ as_file)
        (λ _. as_file))
    where
      as_file : AllMarked (
          correlate_at sys filename_cmp pwd
            (vg_dirname pwd (normalize_path a true))
            (some (vg_basename (normalize_path a true)))
            ds)
      as_file =
          correlate_at_marked (vg_dirname pwd (normalize_path a true))
            (some (vg_basename (normalize_path a true))) ds m

  -- Whatever the arguments, the file system, the order of the files and the masks are: behind
  -- `compile_data` and `mask_match` each directory counts exactly the files that it holds, those of
  -- them that are selected, and those that are not shown. The tree adds a key that has no equal, the
  -- entries of a directory have names of their own, and files that compare the same have one name.
  pub compile_data-AllCounted :
      (args : List Bytes) (masks : List Mask) (ds : List Directory)
      → compile_data sys filename_cmp pwd args ≡ some ds
      → AllCounted (mask_match sys masks ds)
  unfolding compile_data
  compile_data-AllCounted args masks ds e = by_stat (sys.stat pwd) e
    where
      by_stat :
          (r : Option (ℕ × ℕ))
          → elim r [
            | none ↦ none
            | some (dev, inode) ↦
                some (
                  take_arguments sys filename_cmp pwd args
                    (initiate sys filename_cmp pwd dev inode))
          ]
            ≡ some ds
          → AllCounted (mask_match sys masks ds)
      by_stat none h = cc h
      by_stat (some (dev, inode)) h =
          masked_all sys masks ds (subst AllMarked found (take_arguments_marked args _ first))
        where
          found :
              take_arguments sys filename_cmp pwd args (initiate sys filename_cmp pwd dev inode)
              ≡ ds
          found = cc h

          made : IsMarked (make_new_dir sys filename_cmp pwd pwd dev inode)
          made = make_new_dir-IsMarked sys filename_cmp pwd laws pwd dev inode

          first : AllMarked (initiate sys filename_cmp pwd dev inode)
          first = (
            record {
              counted = record {
                selected_eq = made.counted.selected_eq;
                total_eq = made.counted.total_eq;
                hidden_eq = made.counted.hidden_eq;
              };
              shown_selected = made.shown_selected;
            },
            tt,
          )
