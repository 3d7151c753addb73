-- ===== src/Display/Fits.antt =====
-- vgdisplay/wrap_box.c: the size that the box requests fits into the optimal width.
use viewglob.Base.{
  ℕ, zero, suc, ◌+◌, ◌-◌, ◌*◌, ◌/◌, ◌%◌, ◌^◌, ◌≤◌, ◌<◌, ◌≡◌, refl, Bool, true, false, ◌&&◌, List,
  [], ◌∷◌, ltb, ◌==◌, if◌then◌else◌, arith,
}
use viewglob.Display.Reports.{and_left, and_right}
use viewglob.Display.WrapBox.{
  WrapBox, Widget, add_uint, max_uint, Pass, PassEnd, completed, too_many_columns, endless,
  first_pass, with_child, add_column, pass_children, Request, requested, request_loops, sizes,
  single_column, with_columns, get_upper_bound_cols, get_n_visible_children,
  wrap_box_size_request_optimal,
}

abbrev pub all_visible : List Widget → Bool
all_visible [] = true
all_visible (c ∷ cs) = c.visible && all_visible cs

-- The columns so far are within the width.
Within : ℕ → Pass → Type 0
Within w p = (p.total_width ≤ w) × (add_uint p.total_width p.col_width ≤ w)

-- The pass ends, and when it goes through all children, within the width.
abbrev Fits : ℕ → PassEnd → Type 0
Fits w (completed p) = Within w p
Fits w too_many_columns = Unit {0}
Fits w endless = ⊥

by_width :
    (w t : ℕ) (rest : PassEnd)
    → (t ≤ w → Fits w rest)
    → Fits w (if ltb w t then too_many_columns else rest)
by_width w t rest h = split (ltb w t) (λ e. h (ground arith))
  where
    split : (b : Bool) → (b ≡ false → Fits w rest) → Fits w (if b then too_many_columns else rest)
    split true k = tt
    split false k = k refl

by_sight :
    (w : ℕ) (b : Bool) (rest : PassEnd)
    → b ≡ true
    → Fits w rest
    → Fits w (if b then rest else endless)
by_sight w true rest e h = h
by_sight w false rest e h = cc e

add_column-Within : (w rows : ℕ) (p : Pass) → Within w p → Within w (add_column rows p)
unfolding add_column Within
add_column-Within w rows p (h, k) = split (p.row == rows)
  where
    split :
        (b : Bool)
        → Within w (
            if b
            then record {
              row = 0;
              col = p.col + 1;
              total_width = add_uint p.total_width p.col_width;
              col_width = 0;
              col_height = 0;
              max_col_height = max_uint p.max_col_height p.col_height;
            }
            else p)
    split true = (k, omega arith)
    split false = (h, k)

first_pass-Within : (w : ℕ) → Within w first_pass
unfolding Within
first_pass-Within w = (omega arith, omega arith)

with_child-Within :
    (b : WrapBox Widget) (c : Widget) (w : ℕ) (p : Pass)
    → Within w p
    → add_uint (with_child b c p).total_width (with_child b c p).col_width ≤ w
    → Within w (with_child b c p)
unfolding with_child Within
with_child-Within b c w p (h, k) e = (h, e)

pass_children-Fits :
    (b : WrapBox Widget) (w rows : ℕ) (p : Pass) (cs : List Widget)
    → all_visible cs ≡ true
    → Within w p
    → Fits w (pass_children b w rows p cs)
unfolding pass_children
pass_children-Fits b w rows p [] e h = h
pass_children-Fits b w rows p (c ∷ cs) e h =
    let q = with_child b c p in
    by_sight w c.visible _ (and_left _ _ e) (
      by_width w (add_uint q.total_width q.col_width)
        (pass_children b w rows (add_column rows q) cs)
        (λ k.
          pass_children-Fits b w rows (add_column rows q) cs (and_right _ _ e)
            (add_column-Within w rows q (with_child-Within b c w p h k))))

-- A size is requested that is at most so wide.
abbrev pub IsWithin : ℕ → Request → Type 0
IsWithin w (requested x y) = x ≤ w
IsWithin w request_loops = ⊥

with_border :
    (x w border optimal_width : ℕ)
    → x ≤ w
    → w + border ≤ optimal_width
    → optimal_width < 2 ^ 32
    → add_uint x border ≤ optimal_width
with_border x w border optimal_width h k l = omega arith

sizes-IsWithin :
    (b : WrapBox Widget) (w optimal_width : ℕ) (p : Pass)
    → w + b.border_width * 2 ≤ optimal_width
    → optimal_width < 2 ^ 32
    → Within w p
    → IsWithin optimal_width (sizes b p)
unfolding sizes Within
sizes-IsWithin b w o p k l (h, e) = split (p.col_width == 0)
  where
    split :
        (c : Bool)
        → IsWithin o (
            if c
            then requested
                (add_uint p.total_width (b.border_width * 2))
                (add_uint p.max_col_height (b.border_width * 2))
            else requested
                (add_uint (add_uint p.total_width p.col_width) (b.border_width * 2))
                (add_uint (max_uint p.max_col_height p.col_height) (b.border_width * 2)))
    split true = with_border p.total_width w (b.border_width * 2) o h k l
    split false = with_border (add_uint p.total_width p.col_width) w (b.border_width * 2) o e k l

with_columns-IsWithin :
    (b : WrapBox Widget) (w optimal_width n cols : ℕ)
    → all_visible b.children ≡ true
    → w + b.border_width * 2 ≤ optimal_width
    → optimal_width < 2 ^ 32
    → IsWithin optimal_width (with_columns b w n cols)
unfolding with_columns single_column
with_columns-IsWithin b w o n zero e k l = with_border w w (b.border_width * 2) o (omega arith) k l
with_columns-IsWithin b w o n (suc cols) e k l =
    split (n == 0) _
      (pass_children-Fits b w (n / suc cols + (if n % suc cols == 0 then 0 else 1)) first_pass
        b.children e (first_pass-Within w))
      (with_columns-IsWithin b w o n cols e k l)
  where
    split :
        (c : Bool) (end : PassEnd)
        → Fits w end
        → IsWithin o (with_columns b w n cols)
        → IsWithin o (
            if c then single_column b w else elim end [
              | completed p ↦ sizes b p
              | too_many_columns ↦ with_columns b w n cols
              | endless ↦ request_loops
            ])
    split true end h r = with_border w w (b.border_width * 2) o (omega arith) k l
    split false (completed p) h r = sizes-IsWithin b w o p k l h
    split false too_many_columns h r = r
    split false endless h r = absurd h

-- The size request ends while all children are visible, and what it requests is at most as wide as
-- the optimal width, if this is at least twice the border and a `guint`.
pub wrap_box_size_request_optimal-IsWithin :
    (b : WrapBox Widget) (optimal_width : ℕ)
    → all_visible b.children ≡ true
    → b.border_width * 2 ≤ optimal_width
    → optimal_width < 2 ^ 32
    → IsWithin optimal_width (wrap_box_size_request_optimal b optimal_width)
unfolding wrap_box_size_request_optimal
wrap_box_size_request_optimal-IsWithin b o e h k =
    with_columns-IsWithin b ((o + 2 ^ 32 - (b.border_width * 2) % 2 ^ 32) % 2 ^ 32) o
      (get_n_visible_children b) (get_upper_bound_cols b _) e (omega arith) k
