-- ===== src/Display/Showing.antt =====
-- vgdisplay/vgmini.c: the directories that a report leaves are shown.
use viewglob.Base.{
  ℕ, suc, ◌+◌, ◌≡◌, refl, ap, ◌∙◌, Bool, true, false, List, [], ◌∷◌, ◌++◌, Option, none, some,
  Bytes, if◌then◌else◌, length, arith, map,
}
use viewglob.Base.Int.{ℤ, pos}
use viewglob.ParamIo.Equal.{streq_self}
use viewglob.Vgexpand.{Directory}
use viewglob.Vgexpand.Report.{print_dirs}
use viewglob.Display.Glob.{GlobCall}
use viewglob.Display.ReadBack.{is_number, file_calls}
use viewglob.Display.Reports.{all_lines, label}
use viewglob.Display.DirLines.{dir_calls}
use viewglob.Display.RoundTrip.{read_glob-print_dirs}
use viewglob.Display.Named.{find_named, is_named, AreDistinct}
use viewglob.Display.Each.{Each}
use viewglob.Display.Mini.{
  DirCont, Vgmini, find_dircont, update_active, activate_highest, rearrange_and_show, cull_dcs,
  arrange, leb_score, score_of,
}
use viewglob.Display.Process.{run_calls, process_glob_data}
use viewglob.Display.Active.{IsInOrder, BoxNamed, ActiveIn, map-IsInOrder}
use viewglob.Display.Culling.{cull_dcs-IsInOrder, cull_dcs-find}
use viewglob.Display.Ranks.{arrange-Arranged, ranks_from-length}
use viewglob.Display.Taken.{adds_all, run_report, adds-append, adds-file_calls}

activate_highest-IsInOrder :
    (vg : Vgmini) (highest : Bytes) (ds : List DirCont)
    → IsInOrder (record vg { dcs = ds })
    → is_named DirCont.name highest ds ≡ true
    → IsInOrder (activate_highest vg highest ds)
unfolding activate_highest
activate_highest-IsInOrder vg highest ds (d, b, a) h = split vg.active a
  where
    settled :
        (n : Bytes)
        → is_named DirCont.name n ds ≡ true
        → IsInOrder (record vg { active = some n; dcs = map (update_active n) ds })
    settled n k =
        map-IsInOrder (update_active n) (record vg { active = some n; dcs = ds }) (λ dc. refl)
          (λ dc c. c) (d, b, k)

    one :
        (n : Bytes) (x : Bool)
        → is_named DirCont.name n ds ≡ true
        → IsInOrder (record vg {
          active = some (if x then n else highest);
          dcs = map (update_active (if x then n else highest)) ds;
        })
    one n true k = settled n k
    one n false k = settled highest h

    split :
        (o : Option Bytes)
        → ActiveIn o ds
        → (let m = elim o as (λ p. Bytes) [
          | none ↦ highest
          | some n ↦
              if leb_score
                (score_of (find_named DirCont.name highest ds))
                (score_of (find_named DirCont.name n ds))
              then n
              else highest
        ] in
            IsInOrder (record vg { active = some m; dcs = map (update_active m) ds }))
    split none k = settled highest h
    split (some n) k = one n _ k

-- The directories are shown when there is one.
rearrange_and_show-IsInOrder :
    (n : Bytes) (dc : DirCont) (vg : Vgmini)
    → find_dircont n vg ≡ some dc
    → IsInOrder vg
    → (w : Vgmini) × (rearrange_and_show vg ≡ some w) × IsInOrder w
unfolding rearrange_and_show
rearrange_and_show-IsInOrder n dc vg e (d, b, a) = split vg.dcs e d b a
  where
    same :
        (o : Option Bytes) (xs ys : List DirCont)
        → ((m : Bytes) → is_named DirCont.name m ys ≡ is_named DirCont.name m xs)
        → ActiveIn o xs
        → ActiveIn o ys
    same none xs ys h k = tt
    same (some m) xs ys h k = h m ∙ k

    split :
        (xs : List DirCont)
        → find_named DirCont.name n xs ≡ some dc
        → AreDistinct DirCont.name xs
        → Each BoxNamed xs
        → ActiveIn vg.active xs
        → (w : Vgmini) × ((elim xs as (λ p. Option Vgmini) [
          | [] ↦ none
          | dc ∷ dcs ↦ elim (arrange (suc (length xs)) 0 dc.name xs) [
            | none ↦ none
            | some (highest, dcs) ↦ some (activate_highest vg highest dcs)
          ]
        ])
            ≡ some w)
          × IsInOrder w
    split [] k d' b' a' = cc k
    split (x ∷ xs) k d' b' a' =
        let (top, ds, p, q, d'', b'', s) =
          arrange-Arranged (suc (length (x ∷ xs))) 0 x.name (x ∷ xs)
            (omega (arith, ranks_from-length 0 (x ∷ xs))) (rw (streq_self x.name) refl) d' b' in
        (
          activate_highest vg top ds,
          ap
              (λ (o : Option (Bytes × List DirCont)). elim o as (λ y. Option Vgmini) [
                | none ↦ none
                | some (highest, dcs) ↦ some (activate_highest vg highest dcs)
              ])
              p,
          activate_highest-IsInOrder vg top ds (d'', b'', same vg.active (x ∷ xs) ds s a') q,
        )

module _ (decimal : ℤ → Bytes) (numbers : (z : ℤ) → is_number (decimal z) ≡ true)
    (allocated_width : DirCont → ℕ) where
  adds-dir_calls : (r : ℕ) (ds : List Directory) → adds_all (dir_calls decimal numbers r ds) ≡ true
  adds-dir_calls r [] = refl
  adds-dir_calls r (d ∷ ds) =
      adds-append (file_calls 0 d.files) _ (adds-file_calls 0 d.files) (adds-dir_calls (r + 1) ds)

  -- What vgexpand prints of one directory or more is taken by the display without a use of a directory
  -- that is not there, and keeps the display in order: no name is twice among the directories or in one
  -- of the file boxes, and the active directory, if any, is among the directories. Numbers are printed as
  -- a nonempty string of digits and signs, no name has a line feed, and the display was in order.
  pub process_glob_data-IsInOrder :
      (d : Directory) (ds : List Directory) (vg : Vgmini)
      → all_lines (d ∷ ds) ≡ true
      → IsInOrder vg
      → (w : Vgmini) × (process_glob_data allocated_width
            (print_dirs decimal (d ∷ ds) ++ (10 ∷ []))
            vg
          ≡ some w)
        × IsInOrder w
  unfolding process_glob_data
  process_glob_data-IsInOrder d ds vg k h =
      let cs = file_calls 0 d.files ++ dir_calls decimal numbers 1 ds in
      let (v, e, i, (m, c)) =
        run_report allocated_width (label d) 0 (decimal (pos d.selected_count))
          (decimal (pos d.file_count)) (decimal d.hidden_count) cs vg
          (adds-append (file_calls 0 d.files) _ (adds-file_calls 0 d.files) (adds-dir_calls 1 ds))
          h in
      let (dc, f) = cull_dcs-find m v i c in
      let (w, p, q) = rearrange_and_show-IsInOrder m dc (cull_dcs v) f (cull_dcs-IsInOrder v i) in
      (
        w,
        ap
              (λ (o : Option (List GlobCall)). elim o as (λ y. Option Vgmini) [
                | none ↦ none
                | some calls ↦ elim (run_calls allocated_width calls none vg) [
                  | none ↦ none
                  | some vg' ↦ rearrange_and_show (cull_dcs vg')
                ]
              ])
              (read_glob-print_dirs decimal numbers d ds k)
            ∙ ap
                (λ (o : Option Vgmini). elim o as (λ y. Option Vgmini) [
                  | none ↦ none
                  | some vg' ↦ rearrange_and_show (cull_dcs vg')
                ])
                e
            ∙ p,
        q,
      )
