-- ===== src/Display/Layout.antt =====
-- vgdisplay/wrap_box.c: the columns hold the visible children.
use mathlib.Core.Path.{subst}
use viewglob.Base.{
  ℕ, zero, suc, ◌+◌, ◌%◌, ◌^◌, ◌≤◌, ◌<◌, ◌≡◌, refl, sym, ap, ◌∙◌, Bool, true, false, List, [], ◌∷◌,
  ◌++◌, Option, none, some, length, ltb, if◌then◌else◌, arith, inl, inr, ◌⊎◌,
}
use viewglob.Display.WrapBox.{WrapBox, Widget, add_uint, max_uint}
use viewglob.Display.Columns.{
  Column, taken_first, fill_column, reverse_list_col_children, layout_cols,
}

-- The children that are shown.
abbrev pub shown : List Widget → List Widget
shown [] = []
shown (c ∷ cs) = if c.visible then c ∷ shown cs else shown cs

-- The height of a column of that height with more children below it.
abbrev pub stacked : ℕ → ℕ → List Widget → ℕ
stacked vspacing height [] = height
stacked vspacing height (c ∷ cs) =
    stacked vspacing (add_uint (add_uint height vspacing) c.height) cs

abbrev Filled : WrapBox Widget → ℕ → ℕ → ℕ → Column → List Widget → Type 0
Filled b col_height n height k cs =
    (k.taken ++ shown k.left ≡ shown cs)
    × (length k.left ≤ length cs)
    × ((k.taken ≡ [])
        ⊎ ((n + length k.taken ≤ b.child_limit) × (stacked b.vspacing height k.taken ≤ col_height)))

fill_more :
    (b : WrapBox Widget) (col_height n height : ℕ) (c : Widget) (k : Column) (cs : List Widget)
    → n < b.child_limit
    → add_uint (add_uint height b.vspacing) c.height ≤ col_height
    → c.visible ≡ true
    → Filled b col_height (n + 1) (add_uint (add_uint height b.vspacing) c.height) k cs
    → Filled b col_height n height (taken_first c k) (c ∷ cs)
fill_more b H n h c k cs l m v (p, q, inl r) = (
  ap (λ t. c ∷ t) p ∙ sym (ap (λ (x : Bool). if x then c ∷ shown cs else shown cs) v),
  omega arith,
  inr (
      subst
        (λ t.
          (n + suc (length t) ≤ b.child_limit)
          × (stacked b.vspacing (add_uint (add_uint h b.vspacing) c.height) t ≤ H))
        (sym r) (omega arith, m)),
)
fill_more b H n h c k cs l m v (p, q, inr (r, s)) = (
  ap (λ t. c ∷ t) p ∙ sym (ap (λ (x : Bool). if x then c ∷ shown cs else shown cs) v),
  omega arith,
  inr (omega arith, s),
)

fill_column-Filled :
    (b : WrapBox Widget) (col_height n height width : ℕ) (cs : List Widget)
    → Filled b col_height n height (fill_column b col_height n height width cs) cs
fill_column-Filled b H n h w [] = (refl, omega arith, inl refl)
fill_column-Filled b H n h w (c ∷ cs) =
    let higher = add_uint (add_uint h b.vspacing) c.height in
    split (ltb n b.child_limit) c.visible (ltb H higher) refl refl refl
      (fill_column-Filled b H (n + 1) higher (max_uint w c.width) cs)
      (fill_column-Filled b H n h w cs)
  where
    full : Column
    full = record { taken = []; max_child_width = w; left = c ∷ cs }

    split :
        (x y z : Bool)
        → ltb n b.child_limit ≡ x
        → c.visible ≡ y
        → ltb H (add_uint (add_uint h b.vspacing) c.height) ≡ z
        → Filled b H
            (n + 1)
            (add_uint (add_uint h b.vspacing) c.height)
            (fill_column b H
              (n + 1)
              (add_uint (add_uint h b.vspacing) c.height)
              (max_uint w c.width)
              cs)
            cs
        → Filled b H n h (fill_column b H n h w cs) cs
        → Filled b H n h
            (if x
              then (if y
                  then (if z
                      then full
                      else taken_first c (
                          fill_column b H
                            (n + 1)
                            (add_uint (add_uint h b.vspacing) c.height)
                            (max_uint w c.width)
                            cs))
                  else fill_column b H n h w cs)
              else full)
            (c ∷ cs)
    split false y z l v m more same = (refl, omega arith, inl refl)
    split true true true l v m more same = (refl, omega arith, inl refl)
    split true true false l v m more same =
        fill_more b H n h c
          (fill_column b H (n + 1) (add_uint (add_uint h b.vspacing) c.height) (max_uint w c.width)
            cs)
          cs (ground arith) (ground arith) v more
    split true false z l v m (p', q', r') (p, q, r) =
        (p ∙ sym (ap (λ (x : Bool). if x then c ∷ shown cs else shown cs) v), omega arith, r)

-- A column of one child, or of as many as the limit and the height allow.
abbrev pub IsColumn : WrapBox Widget → ℕ → List Widget → Type 0
IsColumn b col_height [] = ⊥
IsColumn b col_height (c ∷ ds) =
    (ds ≡ [])
    ⊎ ((1 + length ds ≤ b.child_limit) × (stacked b.vspacing (add_uint 0 c.height) ds ≤ col_height))

-- A column is taken, or none is shown.
abbrev Taken : WrapBox Widget → ℕ → Column → List Widget → Type 0
Taken b col_height k cs =
    ((k.taken ≡ []) × (shown cs ≡ []))
    ⊎ (IsColumn b col_height k.taken
        × (k.taken ++ shown k.left ≡ shown cs)
        × (length k.left < length cs))

reverse_list_col_children-Taken :
    (b : WrapBox Widget) (col_height : ℕ) (cs : List Widget)
    → Taken b col_height (reverse_list_col_children b col_height cs) cs
unfolding reverse_list_col_children
reverse_list_col_children-Taken b H [] = inl (refl, refl)
reverse_list_col_children-Taken b H (c ∷ cs) =
    split c.visible (reverse_list_col_children-Taken b H cs)
      (fill_column-Filled b H 1 (add_uint 0 c.height) (max_uint 0 c.width) cs)
  where
    k : Column
    k = fill_column b H 1 (add_uint 0 c.height) (max_uint 0 c.width) cs

    later :
        (j : Column)
        → Taken b H j cs
        → ((j.taken ≡ []) × (shown cs ≡ []))
          ⊎ (IsColumn b H j.taken
              × (j.taken ++ shown j.left ≡ shown cs)
              × (length j.left < suc (length cs)))
    later j (inl h) = inl h
    later j (inr (h, p, l)) = inr (h, p, omega arith)

    split :
        (x : Bool)
        → Taken b H (reverse_list_col_children b H cs) cs
        → Filled b H 1 (add_uint 0 c.height) k cs
        → ((if x then taken_first c k else reverse_list_col_children b H cs).taken ≡ [])
            × ((if x then c ∷ shown cs else shown cs) ≡ [])
          ⊎ (IsColumn b H (if x then taken_first c k else reverse_list_col_children b H cs).taken
              × ((if x then taken_first c k else reverse_list_col_children b H cs).taken
                    ++ shown (if x then taken_first c k else reverse_list_col_children b H cs).left
                  ≡ (if x then c ∷ shown cs else shown cs))
              × (length (if x then taken_first c k else reverse_list_col_children b H cs).left
                  < suc (length cs)))
    split true h (p, l, r) = inr (r, ap (λ t. c ∷ t) p, omega arith)
    split false h f = later (reverse_list_col_children b H cs) h

-- The children of all columns.
abbrev pub all_taken : List (List Widget × ℕ) → List Widget
all_taken [] = []
all_taken ((cs, w) ∷ ks) = cs ++ all_taken ks

abbrev pub AllColumns : WrapBox Widget → ℕ → List (List Widget × ℕ) → Type 0
AllColumns b col_height [] = Unit {0}
AllColumns b col_height ((cs, w) ∷ ks) = IsColumn b col_height cs × AllColumns b col_height ks

-- The layout ends within a column for each child and a last one. Its columns hold every child that is
-- shown once and in order, and none other, and each of them has a child: one, or no more than the
-- limit, that with the spacing are no higher than the area.
pub layout_cols-all :
    (b : WrapBox Widget) (col_height : ℕ) (cs : List Widget) (n : ℕ)
    → length cs < n
    → (ks : List (List Widget × ℕ)) × (layout_cols b col_height n cs ≡ some ks)
      × (all_taken ks ≡ shown cs)
      × AllColumns b col_height ks
unfolding layout_cols
layout_cols-all b H cs zero l = absurd (omega arith)
layout_cols-all b H cs (suc n) l =
    let k = reverse_list_col_children b H cs in
    split k.taken k.max_child_width k.left (reverse_list_col_children-Taken b H cs)
      (λ ds h. layout_cols-all b H ds n (omega arith))
  where
    split :
        (taken : List Widget) (width : ℕ) (left : List Widget)
        → ((taken ≡ []) × (shown cs ≡ []))
          ⊎ (IsColumn b H taken × (taken ++ shown left ≡ shown cs) × (length left < length cs))
        → ((ds : List Widget)
            → length ds < length cs
            → (ks : List (List Widget × ℕ)) × (layout_cols b H n ds ≡ some ks)
              × (all_taken ks ≡ shown ds)
              × AllColumns b H ks)
        → (ks : List (List Widget × ℕ)) × ((elim taken [
          | [] ↦ some []
          | c ∷ ds ↦ elim (layout_cols b H n left) [
            | none ↦ none
            | some ks ↦ some ((c ∷ ds, width % 2 ^ 16) ∷ ks)
          ]
        ])
            ≡ some ks)
          × (all_taken ks ≡ shown cs)
          × AllColumns b H ks
    split [] width left (inl (h, e)) r = ([], refl, sym e, tt)
    split [] width left (inr (h, e, m)) r = absurd h
    split (c ∷ ds) width left (inl (h, e)) r = cc h
    split (c ∷ ds) width left (inr (h, e, m)) r =
        let (ks, p, q, a) = r left m in
        (
          (c ∷ ds, width % 2 ^ 16) ∷ ks,
          ap
              (λ (o : Option (List (List Widget × ℕ))). elim o [
                | none ↦ none
                | some ks ↦ some ((c ∷ ds, width % 2 ^ 16) ∷ ks)
              ])
              p,
          ap (λ t. c ∷ (ds ++ t)) q ∙ e,
          (h, a),
        )
