-- ===== src/Display/Taken.antt =====
-- vgdisplay/vgmini.c: a whole report is taken.
use viewglob.Base.{
  ℕ, ◌+◌, ◌≡◌, refl, ap, ◌∙◌, Bool, true, false, ◌&&◌, List, [], ◌∷◌, ◌++◌, Option, none, some,
  Bytes, ◌==◌, if◌then◌else◌, codes, inl, inr, Bool-cases,
}
use viewglob.Vgexpand.{File}
use viewglob.Display.Glob.{GlobCall, unmark_all_dirconts, add_dircont, first_char}
use viewglob.Display.ReadBack.{file_calls}
use viewglob.Display.Reports.{and_left, and_right}
use viewglob.Display.FileBox.{file_box_add}
use viewglob.Display.Mini.{DirCont, Vgmini, change_dircont, score_points, unmark_all}
use viewglob.Display.Process.{without_mark, run_call, run_calls}
use viewglob.Display.Active.{IsInOrder, Current, unmark_all-IsInOrder, add_named-IsInOrder}
use viewglob.Display.Culling.{add_file-IsInOrder}

-- The calls that do not forget the marks.
abbrev adds_one : GlobCall → Bool
adds_one unmark_all_dirconts = false
adds_one _ = true

abbrev pub adds_all : List GlobCall → Bool
adds_all [] = true
adds_all (c ∷ cs) = adds_one c && adds_all cs

abbrev Took : Option (Option Bytes × Vgmini) → Type 0
Took o = (n : Bytes) × (vg : Vgmini) × (o ≡ some (some n, vg)) × IsInOrder vg × Current n vg

module _ (allocated_width : DirCont → ℕ) where
  titled-IsInOrder :
      (b : Bool) (title : Bytes) (vg : Vgmini)
      → IsInOrder vg
      → IsInOrder (if b then record vg { title = title } else vg)
  titled-IsInOrder true title vg h = h
  titled-IsInOrder false title vg h = h

  run_add-Ready :
      (name : Bytes) (rank : ℕ) (selected total hidden : Bytes) (dc : Option Bytes) (vg : Vgmini)
      → IsInOrder vg
      → Took (run_call allocated_width (add_dircont name rank selected total hidden) dc vg)
  unfolding run_call
  run_add-Ready name rank selected total hidden dc vg h =
      let (k, c) =
        add_named-IsInOrder allocated_width
          (if first_char name == 6
            then record vg { title = codes "vg " ++ without_mark name }
            else vg)
          (without_mark name) (first_char name == 6) rank selected total hidden
          (titled-IsInOrder (first_char name == 6) (codes "vg " ++ without_mark name) vg h) in
      (without_mark name, _, refl, k, c)

  run_call-Ready :
      (c : GlobCall) (n : Bytes) (vg : Vgmini)
      → adds_one c ≡ true
      → IsInOrder vg
      → Current n vg
      → Took (run_call allocated_width c (some n) vg)
  unfolding run_call
  run_call-Ready unmark_all_dirconts n vg a h c = cc a
  run_call-Ready (add_dircont name rank selected total hidden) n vg a h c =
      run_add-Ready name rank selected total hidden (some n) vg h
  run_call-Ready (GlobCall.file_box_add name type selection rank) n vg a h (dc, e, k) =
      let (i, j) = add_file-IsInOrder n dc vg name type selection rank h e k in
      (
        n,
        change_dircont n (score_points (file_box_add dc.file_box name type selection rank)) vg,
        ap
            (λ (o : Option DirCont). elim o as (λ p. Option (Option Bytes × Vgmini)) [
              | none ↦ none
              | some c ↦ some (
                some n,
                change_dircont n (score_points (file_box_add c.file_box name type selection rank))
                    vg,
              )
            ])
            e,
        i,
        j,
      )

  run_calls-Current :
      (cs : List GlobCall) (n : Bytes) (vg : Vgmini)
      → adds_all cs ≡ true
      → IsInOrder vg
      → Current n vg
      → (w : Vgmini) × (run_calls allocated_width cs (some n) vg ≡ some w)
        × IsInOrder w
        × ((m : Bytes) × Current m w)
  unfolding run_calls
  run_calls-Current [] n vg a h c = (vg, refl, h, (n, c))
  run_calls-Current (c ∷ cs) n vg a h k =
      let (m, v, e, i, j) = run_call-Ready c n vg (and_left _ _ a) h k in
      let (w, p, q, r) = run_calls-Current cs m v (and_right _ _ a) i j in
      (
        w,
        ap
              (λ (o : Option (Option Bytes × Vgmini)). elim o as (λ x. Option Vgmini) [
                | none ↦ none
                | some (dc', vg') ↦ run_calls allocated_width cs dc' vg'
              ])
              e
            ∙ p,
        q,
        r,
      )

  -- The calls for a report.
  pub run_report :
      (name : Bytes) (rank : ℕ) (selected total hidden : Bytes) (cs : List GlobCall) (vg : Vgmini)
      → adds_all cs ≡ true
      → IsInOrder vg
      → (w : Vgmini) × (run_calls allocated_width
            (unmark_all_dirconts ∷ add_dircont name rank selected total hidden ∷ cs)
            none
            vg
          ≡ some w)
        × IsInOrder w
        × ((m : Bytes) × Current m w)
  unfolding run_calls run_call
  run_report name rank selected total hidden cs vg a h =
      let (m, v, e, i, j) =
        run_add-Ready name rank selected total hidden none (unmark_all vg)
          (unmark_all-IsInOrder vg h) in
      let (w, p, q, r) = run_calls-Current cs m v a i j in
      (
        w,
        ap
              (λ (o : Option (Option Bytes × Vgmini)). elim o as (λ x. Option Vgmini) [
                | none ↦ none
                | some (dc', vg') ↦ run_calls allocated_width cs dc' vg'
              ])
              e
            ∙ p,
        q,
        r,
      )

pub adds-append :
    (xs ys : List GlobCall) → adds_all xs ≡ true → adds_all ys ≡ true → adds_all (xs ++ ys) ≡ true
adds-append [] ys h k = k
adds-append (x ∷ xs) ys h k =
    rw (and_left (adds_one x) (adds_all xs) h) (adds-append xs ys (and_right _ _ h) k)

pub adds-file_calls : (r : ℕ) (fs : List File) → adds_all (file_calls r fs) ≡ true
adds-file_calls r [] = refl
adds-file_calls r (f ∷ fs) = elim (Bool-cases f.shown) [
  | inl y ↦ rw y (adds-file_calls (r + 1) fs)
  | inr y ↦ rw y (adds-file_calls r fs)
]
