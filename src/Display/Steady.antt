-- ===== src/Display/Steady.antt =====
-- vgdisplay/vgmini.c: the display under messages of vgd in any order, with reports as vgexpand prints
-- them.
use mathlib.Core.Path.{subst}
use viewglob.Base.{
  ℕ, ◌≡◌, sym, ap, ◌∙◌, ◌⊎◌, inl, inr, Bool, true, false, List, [], ◌∷◌, ◌++◌, Option, none, some,
  Bytes, codes, if◌then◌else◌,
}
use viewglob.Base.Int.{ℤ}
use viewglob.ParamIo.{
  Parameter, p_order, p_cmd, p_win_id, p_mask, p_developing_mask, p_status, p_vgexpand_data, p_eof,
  streq,
}
use viewglob.Vgexpand.{Directory}
use viewglob.Vgexpand.Report.{print_dirs}
use viewglob.Display.ReadBack.{is_number}
use viewglob.Display.Reports.{all_lines}
use viewglob.Display.Each.{Each}
use viewglob.Display.Mini.{DirCont, Vgmini}
use viewglob.Display.Process.{process_glob_data}
use viewglob.Display.Active.{IsInOrder}
use viewglob.Display.Showing.{process_glob_data-IsInOrder}
use viewglob.Display.Events.{
  activate_dc, do_nav, set_cmd, Receipt, showing, exits_success, exits_failure, crashed, or_crashed,
  empty_or, receive_data, receive_each,
}
use viewglob.Display.Searching.{activate_dc-IsInOrder}

-- The display goes on in order, or exits as it means to.
abbrev pub Steady : Receipt → Type 0
Steady (showing vg) = IsInOrder vg
Steady crashed = ⊥
Steady _ = Unit {0}

or_crashed-Steady :
    (o : Option Vgmini) (w : Vgmini) → o ≡ some w → IsInOrder w → Steady (or_crashed o)
or_crashed-Steady o w e h = subst (λ (p : Option Vgmini). Steady (or_crashed p)) (sym e) h

do_nav-Steady : (order : Bytes) (vg : Vgmini) → IsInOrder vg → Steady (or_crashed (do_nav order vg))
unfolding do_nav
do_nav-Steady order vg h = split (streq order (codes "up")) (streq order (codes "down"))
  where
    nav : (next : Bool) → Steady (or_crashed (activate_dc next vg))
    nav next =
        let (w, e, k) = activate_dc-IsInOrder next vg h in
        or_crashed-Steady (activate_dc next vg) w e k

    split :
        (x y : Bool)
        → Steady (
            or_crashed
              (if x then activate_dc false vg else if y then activate_dc true vg else some vg))
    split true y = nav false
    split false true = nav true
    split false false = h

module _ (decimal : ℤ → Bytes) (numbers : (z : ℤ) → is_number (decimal z) ≡ true)
    (allocated_width : DirCont → ℕ) (utf8 : Bytes → Bytes) where
  -- The data of vgexpand is empty, or the report of one directory or more, with names on one line.
  abbrev pub IsReport : Bytes → Type 0
  IsReport value =
      (value ≡ [])
      ⊎ ((d : Directory) × (ds : List Directory) × (all_lines (d ∷ ds) ≡ true)
          × (value ≡ print_dirs decimal (d ∷ ds) ++ (10 ∷ [])))

  abbrev pub HasReport : Option (Parameter × Bytes) → Type 0
  HasReport (some (p_vgexpand_data, value)) = IsReport value
  HasReport m = Unit {0}

  data-Steady :
      (value : Bytes) (vg : Vgmini)
      → IsReport value
      → IsInOrder vg
      → Steady (empty_or allocated_width utf8 vg value)
  data-Steady [] vg r h = h
  data-Steady (c ∷ cs) vg (inl e) h = cc e
  data-Steady (c ∷ cs) vg (inr (d, ds, k, e)) h =
      let (w, p, q) = process_glob_data-IsInOrder decimal numbers allocated_width d ds vg k h in
      or_crashed-Steady (process_glob_data allocated_width (c ∷ cs) vg) w
        (ap (λ s. process_glob_data allocated_width s vg) e ∙ p) q

  receive_data-Steady :
      (m : Option (Parameter × Bytes)) (vg : Vgmini)
      → HasReport m
      → IsInOrder vg
      → Steady (receive_data allocated_width utf8 m vg)
  unfolding receive_data set_cmd
  receive_data-Steady none vg r h = tt
  receive_data-Steady (some (p_order, value)) vg r h = split (streq value (codes "refocus"))
    where
      split : (b : Bool) → Steady (if b then showing vg else or_crashed (do_nav value vg))
      split true = h
      split false = do_nav-Steady value vg h
  receive_data-Steady (some (p_cmd, value)) vg r h = h
  receive_data-Steady (some (p_win_id, value)) vg r h = h
  receive_data-Steady (some (p_mask, value)) vg r h = h
  receive_data-Steady (some (p_developing_mask, value)) vg r h = h
  receive_data-Steady (some (p_status, value)) vg r h = h
  receive_data-Steady (some (p_vgexpand_data, value)) vg r h = data-Steady value vg r h
  receive_data-Steady (some (p_eof, value)) vg r h = tt
  receive_data-Steady (some (_, value)) vg r h = tt

  -- Under messages in any order, of which those with the data of vgexpand are empty or the report that
  -- vgexpand prints of one directory or more, the display never uses a directory that is not there or reads beyond the end
  -- of a message, and its searches end: it exits, or no name is twice among the directories or in one
  -- of their file boxes, and the active directory, if any, is among the directories. This holds from
  -- any such state on. Numbers are printed as a nonempty string of digits and signs, and no name has a
  -- line feed.
  pub receive_each-Steady :
      (ms : List (Option (Parameter × Bytes))) (r : Receipt)
      → Each HasReport ms
      → Steady r
      → Steady (receive_each allocated_width utf8 ms r)
  receive_each-Steady [] r e h = h
  receive_each-Steady (m ∷ ms) (showing vg) (k, e) h =
      receive_each-Steady ms (receive_data allocated_width utf8 m vg) e
        (receive_data-Steady m vg k h)
  receive_each-Steady (m ∷ ms) crashed (k, e) h = absurd h
  receive_each-Steady (m ∷ ms) exits_success (k, e) h = receive_each-Steady ms exits_success e tt
  receive_each-Steady (m ∷ ms) exits_failure (k, e) h = receive_each-Steady ms exits_failure e tt
