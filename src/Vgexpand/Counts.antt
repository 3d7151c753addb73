-- ===== src/Vgexpand/Counts.antt =====
-- vgexpand/vgexpand.c: the counts of a directory.
use viewglob.Base.{
  ℕ, ◌+◌, ◌≡◌, refl, ap, ◌∙◌, Bool, true, false, not, List, [], ◌∷◌, Bytes, arith, length, ◌==◌,
  if-cases,
}
use viewglob.Base.Int.{ℤ, pos}
use viewglob.Vgexpand.{
  fs_maybe, File, Directory, System, is_yes, is_prefix, decrement, mark_traverse, traverse, foreach,
  matches, mask_traverse,
}
use viewglob.Vgexpand.Split.{Mask}

abbrev pub bit : Bool → ℕ
bit true = 1
bit false = 0

-- How many files are selected, and how many are not shown.
abbrev pub selected_files : List File → ℕ
selected_files [] = 0
selected_files (f ∷ fs) = bit (is_yes f.selected) + selected_files fs

abbrev pub hidden_files : List File → ℕ
hidden_files [] = 0
hidden_files (f ∷ fs) = bit (not f.shown) + hidden_files fs

-- The counts of a directory tell of its files.
pub record IsCounted (d : Directory) : Type 0 where
  pub selected_eq : d.selected_count ≡ selected_files d.files
  pub total_eq : d.file_count ≡ length d.files
  pub hidden_eq : d.hidden_count ≡ pos (hidden_files d.files)

abbrev pub Each : (File → Type 0) → List File → Type 0
Each R [] = Unit {0}
Each R (f ∷ fs) = R f × Each R fs

-- Just the selected files are shown, as it is before the masks.
abbrev pub ShownSelected : File → Type 0
ShownSelected f = f.shown ≡ is_yes f.selected

-- The counts within a traversal: so many of the files that were passed, and the files ahead.
record Counted (a k b : ℕ) (d : Directory) (fs : List File) : Type 0 where
  selected_sum : d.selected_count ≡ a + selected_files fs
  total_sum : d.file_count ≡ k + length fs
  hidden_sum : d.hidden_count ≡ pos (b + hidden_files fs)

decrement_lem : (z : ℤ) (n : ℕ) → z ≡ pos (ℕ.suc n) → decrement z ≡ pos n
decrement_lem z n h = ap decrement h

-- A file that is not touched.
passed :
    {a k b : ℕ} {d : Directory} (f : File) {fs : List File}
    → Counted a k b d (f ∷ fs)
    → Counted (a + bit (is_yes f.selected)) (k + 1) (b + bit (not f.shown)) d fs
passed f c = record {
  selected_sum = ground (arith, c.selected_sum);
  total_sum = ground (arith, c.total_sum);
  hidden_sum = c.hidden_sum ∙ ap pos (ground arith);
}

-- A file that becomes shown, and that becomes selected too.
shown_now :
    {a k b : ℕ} {d : Directory} (f : File) {fs : List File}
    → f.shown ≡ false
    → Counted a k b d (f ∷ fs)
    → Counted
        (a + bit (is_yes f.selected))
        (k + 1)
        (b + 0)
        (record d { hidden_count = decrement d.hidden_count })
        fs
shown_now {a} {k} {b} {d} f {fs} h c = record {
  selected_sum = ground (arith, c.selected_sum);
  total_sum = ground (arith, c.total_sum);
  hidden_sum =
      decrement_lem d.hidden_count (b + 0 + hidden_files fs) (c.hidden_sum ∙ ap pos one_less);
}
  where
    one_less : b + (bit (not f.shown) + hidden_files fs) ≡ ℕ.suc (b + 0 + hidden_files fs)
    one_less = ap (λ x. b + (bit (not x) + hidden_files fs)) h ∙ ground arith

chosen_now :
    {a k b : ℕ} {d : Directory} (f : File) {fs : List File}
    → f.shown ≡ false
    → is_yes f.selected ≡ false
    → Counted a k b d (f ∷ fs)
    → Counted
        (a + 1)
        (k + 1)
        (b + 0)
        (record d {
          selected_count = d.selected_count + 1;
          hidden_count = decrement d.hidden_count;
        })
        fs
chosen_now {a} {k} {b} {d} f {fs} h n c = record {
  selected_sum =
      ap (λ x. x + 1) (c.selected_sum ∙ ap (λ x. a + (bit x + selected_files fs)) n) ∙ ground arith;
  total_sum = ground (arith, c.total_sum);
  hidden_sum = (shown_now f h c).hidden_sum;
}

-- What a traversal does to a file and the counts, with what it needs to know of the file.
module _ (P Q : File → Type 0) (g : File → Directory → File × Directory)
    (step : (f : File) (d : Directory) (fs : List File) (a k b : ℕ)
      → P f
      → Counted a k b d (f ∷ fs)
      → Counted
          (a + bit (is_yes (g f d).0.selected))
          (k + 1)
          (b + bit (not (g f d).0.shown))
          (g f d).1
          fs
        × Q (g f d).0) where
  traverse-Counted :
      (fs : List File) (d : Directory) (a k b : ℕ)
      → Each P fs
      → Counted a k b d fs
      → Counted a k b (traverse g fs d).1 (traverse g fs d).0 × Each Q (traverse g fs d).0
  traverse-Counted [] d a k b h c = (c, tt)
  traverse-Counted (f ∷ fs) d a k b (h, hs) c =
      let (c', q) = step f d fs a k b h c in
      let (e, qs) =
        traverse-Counted fs (g f d).1 (a + bit (is_yes (g f d).0.selected)) (k + 1)
          (b + bit (not (g f d).0.shown)) hs c' in
      (
        record {
          selected_sum = ground (arith, e.selected_sum);
          total_sum = ground (arith, e.total_sum);
          hidden_sum = e.hidden_sum ∙ ap pos (ground arith);
        },
        (q, qs),
      )

mark_step :
    (lookup : Bytes) (f : File) (d : Directory) (fs : List File) (a k b : ℕ)
    → f.shown ≡ is_yes f.selected
    → Counted a k b d (f ∷ fs)
    → Counted
        (a + bit (is_yes (mark_traverse lookup f d).0.selected))
        (k + 1)
        (b + bit (not (mark_traverse lookup f d).0.shown))
        (mark_traverse lookup f d).1
        fs
      × ((mark_traverse lookup f d).0.shown ≡ is_yes (mark_traverse lookup f d).0.selected)
unfolding mark_traverse
mark_step lookup f d fs a k b h c =
    if-cases P (is_yes f.selected) (λ _. (passed f c, h))
      (λ n.
        if-cases P (is_prefix lookup f.name)
          (λ _.
            if-cases P (length lookup == length f.name) (λ _. (chosen_now f (h ∙ n) n c, refl))
              (λ _. (
                passed (record f { selected = fs_maybe })
                    (record {
                      selected_sum = c.selected_sum ∙ ap (λ x. a + (bit x + selected_files fs)) n;
                      total_sum = c.total_sum;
                      hidden_sum = c.hidden_sum;
                    }),
                h ∙ n,
              )))
          (λ _. (passed f c, h)))
  where
    P : File × Directory → Type 0
    P r =
        Counted (a + bit (is_yes r.0.selected)) (k + 1) (b + bit (not r.0.shown)) r.1 fs
        × (r.0.shown ≡ is_yes r.0.selected)

mask_step :
    (sys : System) (masks : List Mask) (f : File) (d : Directory) (fs : List File) (a k b : ℕ)
    → f.shown ≡ is_yes f.selected
    → Counted a k b d (f ∷ fs)
    → Counted
        (a + bit (is_yes (mask_traverse sys masks f d).0.selected))
        (k + 1)
        (b + bit (not (mask_traverse sys masks f d).0.shown))
        (mask_traverse sys masks f d).1
        fs
      × Unit {0}
unfolding mask_traverse
mask_step sys masks f d fs a k b h c =
    if-cases P (is_yes f.selected) (λ _. (passed f c, tt))
      (λ n.
        if-cases P (matches sys masks f) (λ _. (shown_now f (h ∙ n) c, tt)) (λ _. (passed f c, tt)))
  where
    P : File × Directory → Type 0
    P r =
        Counted (a + bit (is_yes r.0.selected)) (k + 1) (b + bit (not r.0.shown)) r.1 fs × Unit {0}

-- A directory as it is between the arguments.
pub record IsMarked (d : Directory) : Type 0 where
  pub counted : IsCounted d
  pub shown_selected : Each ShownSelected d.files

start : {d : Directory} → IsCounted d → Counted 0 0 0 d d.files
start c = record {
  selected_sum = c.selected_eq ∙ ground arith;
  total_sum = c.total_eq ∙ ground arith;
  hidden_sum = c.hidden_eq ∙ ap pos (ground arith);
}

finish : {d : Directory} (fs : List File) → Counted 0 0 0 d fs → IsCounted (record d { files = fs })
finish fs c = record {
  selected_eq = c.selected_sum ∙ ground arith;
  total_eq = c.total_sum ∙ ground arith;
  hidden_eq = c.hidden_sum ∙ ap pos (ground arith);
}

pub foreach-IsMarked :
    (lookup : Bytes) (d : Directory) → IsMarked d → IsMarked (foreach (mark_traverse lookup) d)
foreach-IsMarked lookup d m =
    let (c, e) =
      traverse-Counted ShownSelected ShownSelected (mark_traverse lookup) (mark_step lookup) d.files
        d 0 0 0 m.shown_selected (start m.counted) in
    record { counted = finish (traverse (mark_traverse lookup) d.files d).0 c; shown_selected = e }

pub masked-IsCounted :
    (sys : System) (masks : List Mask) (d : Directory)
    → IsMarked d
    → IsCounted (foreach (mask_traverse sys masks) d)
masked-IsCounted sys masks d m =
    finish (traverse (mask_traverse sys masks) d.files d).0
      (traverse-Counted ShownSelected (λ f. Unit {0}) (mask_traverse sys masks)
        (mask_step sys masks) d.files d 0 0 0 m.shown_selected (start m.counted)).0
