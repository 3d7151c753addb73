-- ===== src/Vgexpand/Entries.antt =====
-- vgexpand/vgexpand.c: the counts of a directory that is read, `make_new_dir`.
use mathlib.Core.Path.{subst}
use viewglob.Base.{
  ℕ, ◌+◌, ◌≡◌, refl, sym, ap, ◌∙◌, Bool, true, false, not, ◌&&◌, ◌||◌, List, [], ◌∷◌, ◌++◌, some,
  Bytes, codes, arith, length, ltb, if-cases, Bool-cases, Option-cases, inl, inr,
}
use viewglob.Base.Int.{pos}
use viewglob.ParamIo.{streq}
use viewglob.ParamIo.Equal.{streq_self}
use viewglob.Vgexpand.{
  fs_no, File, Directory, System, Order, same, strcmp, cmp_win, is_directory, is_yes, make_new_dir,
  make_new_file, type_of, add_entries, new_directory, with_entries,
}
use viewglob.Vgexpand.Marks.{is_named}
use viewglob.Vgexpand.Counts.{bit, selected_files, hidden_files, Each, IsMarked}

abbrev pub is_same : Order → Bool
is_same same = true
is_same _ = false

-- Names that are not repeated, nor among those seen before.
abbrev pub are_new : List Bytes → List Bytes → Bool
are_new [] seen = true
are_new (e ∷ es) seen = not (is_named seen e) && are_new es (e ∷ seen)

-- A file added to a list.
abbrev pub Adds : File → List File → List File → Type 0
Adds f fs t =
    (before : List File) × (after : List File) × (fs ≡ before ++ after)
    × (t ≡ before ++ (f ∷ after))

-- A key is added to a tree that has none that compares the same; the entries of a directory have
-- names of their own; files that compare the same have the same name.
pub record SystemLaws (sys : System) (filename_cmp : File → File → Order) : Type 0 where
  pub insert_adds :
      (f : File) (fs : List File)
      → Each (λ g. is_same (filename_cmp f g) ≡ false) fs
      → Adds f fs (sys.g_tree_insert filename_cmp f fs)
  pub entries_new :
      (dir : Bytes) (es : List Bytes) → sys.entries dir ≡ some es → are_new es [] ≡ true
  pub same_name : (f g : File) → is_same (filename_cmp f g) ≡ true → f.name ≡ g.name

Each-map :
    {P Q : File → Type 0} → ((f : File) → P f → Q f) → (fs : List File) → Each P fs → Each Q fs
Each-map h [] e = tt
Each-map h (f ∷ fs) (p, e) = (h f p, Each-map h fs e)

Each-insert :
    (P : File → Type 0) (f : File) (before after : List File)
    → P f
    → Each P (before ++ after)
    → Each P (before ++ (f ∷ after))
Each-insert P f [] after p e = (p, e)
Each-insert P f (g ∷ before) after p (q, e) = (q, Each-insert P f before after p e)

length-insert :
    (f : File) (before after : List File)
    → length (before ++ (f ∷ after)) ≡ length (before ++ after) + 1
length-insert f [] after = ground arith
length-insert f (g ∷ before) after = ground (arith, length-insert f before after)

-- A file of a directory that is being read.
abbrev Listed : List Bytes → File → Type 0
Listed seen f = (f.selected ≡ fs_no) × (f.shown ≡ false) × (is_named seen f.name ≡ true)

record IsRead (seen : List Bytes) (d : Directory) : Type 0 where
  none_selected : d.selected_count ≡ 0
  total_read : d.file_count ≡ length d.files
  listed : Each (Listed seen) d.files

selected_none : (seen : List Bytes) (fs : List File) → Each (Listed seen) fs → selected_files fs ≡ 0
selected_none seen [] e = refl
selected_none seen (f ∷ fs) ((h, k, l), e) =
    ap (λ x. bit (is_yes x) + selected_files fs) h ∙ ground (arith, selected_none seen fs e)

hidden_all :
    (seen : List Bytes) (fs : List File) → Each (Listed seen) fs → hidden_files fs ≡ length fs
hidden_all seen [] e = refl
hidden_all seen (f ∷ fs) ((h, k, l), e) =
    ap (λ x. bit (not x) + hidden_files fs) k ∙ ground (arith, hidden_all seen fs e)

module _ (sys : System) (filename_cmp : File → File → Order) (pwd : Bytes)
    (laws : SystemLaws sys filename_cmp) where
  -- A new name differs from those that were seen.
  apart :
      (seen : List Bytes) (f : File)
      → is_named seen f.name ≡ false
      → (g : File) → Listed seen g
      → is_same (filename_cmp f g) ≡ false
  apart seen f n g (h, k, l) = elim (Bool-cases (is_same (filename_cmp f g))) [
    | inl y ↦ cc (n, l, ap (is_named seen) (laws.same_name f g y))
    | inr y ↦ y
  ]

  Listed-too : (e : Bytes) (seen : List Bytes) (g : File) → Listed seen g → Listed (e ∷ seen) g
  Listed-too e seen g (h, k, l) = (h, k, ap (λ x. streq e g.name || x) l ∙ or_true (streq e g.name))
    where
      or_true : (b : Bool) → (b || true) ≡ true
      or_true true = refl
      or_true false = refl

  add_entry :
      (e : Bytes) (seen : List Bytes) (path : Bytes) (d : Directory)
      → is_named seen e ≡ false
      → IsRead seen d
      → IsRead (e ∷ seen) (record d {
        files =
            sys.g_tree_insert filename_cmp
              (make_new_file e (type_of sys filename_cmp pwd path))
              d.files;
        file_count = d.file_count + 1;
      })
  add_entry e seen path d n r =
      let f = make_new_file e (type_of sys filename_cmp pwd path) in
      let (before, after, x, y) =
        laws.insert_adds f d.files (Each-map (apart seen f n) d.files r.listed) in
      record {
        none_selected = r.none_selected;
        total_read =
            ap (λ x. x + 1) r.total_read
            ∙ ap (λ l. length l + 1) x
            ∙ sym (length-insert f before after)
            ∙ ap length (sym y);
        listed = subst (Each (Listed (e ∷ seen))) (sym y) (
            Each-insert (Listed (e ∷ seen)) f before after
              (refl, refl, ap (λ b. b || is_named seen e) (streq_self e))
              (subst (Each (Listed (e ∷ seen))) x (Each-map (Listed-too e seen) d.files r.listed)));
      }

  add_entries-IsRead :
      (dir : Bytes) (es seen : List Bytes) (d : Directory)
      → are_new es seen ≡ true
      → IsRead seen d
      → (now : List Bytes) × IsRead now (add_entries sys filename_cmp pwd dir es d)
  add_entries-IsRead dir [] seen d n r = (seen, r)
  add_entries-IsRead dir (e ∷ es) seen d n r = elim (Bool-cases (is_named seen e)) [
    | inl y ↦ cc (n, ap (λ b. not b && are_new es (e ∷ seen)) y)
    | inr y ↦
        add_entries-IsRead dir es (e ∷ seen) _
          (sym (ap (λ b. not b && are_new es (e ∷ seen)) y) ∙ n)
          (add_entry e seen (dir ++ (codes "/" ++ e)) d y r)
  ]

  read-IsMarked :
      (seen : List Bytes) (d : Directory)
      → IsRead seen d
      → IsMarked (record d { hidden_count = pos d.file_count })
  read-IsMarked seen d r = record {
    counted = record {
      selected_eq = r.none_selected ∙ sym (selected_none seen d.files r.listed);
      total_eq = r.total_read;
      hidden_eq = ap pos (r.total_read ∙ sym (hidden_all seen d.files r.listed));
    };
    shown_selected = Each-map (λ f (h, k, l). k ∙ sym (ap is_yes h)) d.files r.listed;
  }

  pub make_new_dir-IsMarked :
      (name : Bytes) (dev inode : ℕ) → IsMarked (make_new_dir sys filename_cmp pwd name dev inode)
  unfolding make_new_dir
  make_new_dir-IsMarked name dev inode = elim (Option-cases (sys.entries name)) [
    | inl n ↦
        subst (λ o. IsMarked (with_entries sys filename_cmp pwd o d)) (sym n)
          (read-IsMarked [] d empty)
    | inr (es, y) ↦
        let (seen, r) = add_entries-IsRead name es [] d (laws.entries_new name es y) empty in
        subst (λ o. IsMarked (with_entries sys filename_cmp pwd o d)) (sym y)
          (read-IsMarked seen _ r)
  ]
    where
      d : Directory
      d = new_directory sys filename_cmp pwd name dev inode

      empty : IsRead [] d
      empty = record { none_selected = refl; total_read = refl; listed = tt }

strcmp_same : (s t : Bytes) → is_same (strcmp s t) ≡ true → s ≡ t
strcmp_same [] [] h = refl
strcmp_same [] (b ∷ t) h = cc h
strcmp_same (a ∷ s) [] h = cc h
strcmp_same (a ∷ s) (b ∷ t) h =
    if-cases P (ltb a b) (λ _ k. cc k)
      (λ n.
        if-cases P (ltb b a) (λ _ k. cc k)
          (λ m k.
            let e : a ≡ b = ground arith in
            ap (λ c. c ∷ s) e ∙ ap (λ u. b ∷ u) (strcmp_same s t k)))
      h
  where
    P : Order → Type 0
    P o = is_same o ≡ true → a ∷ s ≡ b ∷ t

pub cmp_win_lem : (f g : File) → is_same (cmp_win f g) ≡ true → f.name ≡ g.name
cmp_win_lem f g h =
    if-cases P (is_directory f.type)
      (λ _. if-cases P (is_directory g.type) (λ _ k. strcmp_same f.name g.name k) (λ _ k. cc k))
      (λ _. if-cases P (is_directory g.type) (λ _ k. cc k) (λ _ k. strcmp_same f.name g.name k)) h
  where
    P : Order → Type 0
    P o = is_same o ≡ true → f.name ≡ g.name
