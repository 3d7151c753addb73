-- ===== src/Display/Adding.antt =====
-- vgdisplay/file_box.c: what `file_box_add` changes of the files of the box.
use mathlib.Core.Path.{subst}
use viewglob.Base.{ℕ, ◌≡◌, refl, sym, ap, ◌∙◌, true, List, Option, none, some, Bytes}
use viewglob.Vgexpand.{FileSelection, FileType}
use viewglob.Display.WrapBox.{insert_child, wrap_box_pack_pos}
use viewglob.Display.Named.{change_named}
use viewglob.Display.Lookups.{find-none, find-name}
use viewglob.Display.FileBox.{
  ItemWidget, FItem, FileBox, display_pos, fitem_new, set_changed,
  fitem_update_type_selection_and_order, set_marked, fitem_build_widgets, mark_and_pack,
  file_box_add,
}
use viewglob.Display.Items.{
  AreNamed, find, Sets, Sets-trans, change-Sets, new-Sets, Gives, set_changed-fis, update-Gives,
}

mark_and_pack-Gives :
    (fi : FItem) (b : FileBox)
    → AreNamed b.fis
    → find fi.name b.fis ≡ some fi
    → (g : FItem) × (g.type ≡ fi.type)
      × (g.selection ≡ fi.selection)
      × (g.marked ≡ true)
      × Sets fi.name g b.fis (mark_and_pack fi b).fis
unfolding mark_and_pack
mark_and_pack-Gives fi b d e =
    split fi.widget (change-Sets fi.name set_marked fi b.fis (λ a. refl) d e)
  where
    ys : List FItem
    ys = change_named FItem.name fi.name set_marked b.fis

    split :
        (o : Option ItemWidget)
        → Sets fi.name (set_marked fi) b.fis ys
        → (g : FItem) × (g.type ≡ fi.type)
          × (g.selection ≡ fi.selection)
          × (g.marked ≡ true)
          × Sets fi.name g b.fis (
              let c : FileBox = elim o [
                | some w ↦ record b { fis = ys }
                | none ↦ set_changed fi (record b {
                  fis = change_named FItem.name fi.name fitem_build_widgets ys;
                  wbox = wrap_box_pack_pos b.wbox fi.name (display_pos fi.name ys);
                })
              ] in
              c.fis)
    split (some w) q = (set_marked fi, refl, refl, refl, q)
    split none (d', e', o) = (
      fitem_build_widgets (set_marked fi),
      refl,
      refl,
      refl,
      subst (λ zs. Sets fi.name (fitem_build_widgets (set_marked fi)) b.fis zs)
          (sym (set_changed-fis fi _))
          (Sets-trans fi.name (set_marked fi) _ b.fis ys _ (d', e', o)
            (change-Sets fi.name fitem_build_widgets (set_marked fi) ys (λ a. refl) d' e')),
    )

-- What a name is in the box, if it is marked there.
abbrev pub Adds : Bytes → FileType → FileSelection → List FItem → List FItem → Type 0
Adds n t s xs ys =
    (g : FItem) × (g.type ≡ t) × (g.selection ≡ s) × (g.marked ≡ true) × Sets n g xs ys

pub file_box_add-Adds :
    (b : FileBox) (n : Bytes) (t : FileType) (s : FileSelection) (r : ℕ)
    → AreNamed b.fis
    → Adds n t s b.fis (file_box_add b n t s r).0.fis
unfolding file_box_add
file_box_add-Adds b n t s r d = split (find n b.fis) refl
  where
    known :
        (fi : FItem) (x : FItem × FileBox × ℕ)
        → Gives n t s b x
        → Adds n t s b.fis (let (item, c, points) = x in (mark_and_pack item c).fis)
    known fi (item, c, points) (e, u, v, (d', f, o)) =
        let (g, u', v', k, q) = mark_and_pack-Gives item c d' (ap (λ m. find m c.fis) e ∙ f) in
        (
          g,
          u' ∙ u,
          v' ∙ v,
          k,
          Sets-trans n item g b.fis c.fis _ (d', f, o)
              (subst (λ m. Sets m g c.fis (mark_and_pack item c).fis) e q),
        )

    split :
        (o : Option FItem)
        → find n b.fis ≡ o
        → Adds n t s b.fis (
            let x : FileBox × ℕ = elim o [
              | some fi ↦
                  (let (item, c, points) = fitem_update_type_selection_and_order fi t s r b in
                    (mark_and_pack item c, points))
              | none ↦ (
                mark_and_pack
                    (fitem_new n t s)
                    (record b { fis = insert_child r (fitem_new n t s) b.fis }),
                2,
              )
            ] in
            x.0.fis)
    split none e =
        let (d', f, o) = new-Sets r (fitem_new n t s) b.fis d (find-none FItem.name n b.fis e) in
        let (g, u', v', k, q) =
          mark_and_pack-Gives (fitem_new n t s)
            (record b { fis = insert_child r (fitem_new n t s) b.fis }) d' f in
        (g, u', v', k, Sets-trans n (fitem_new n t s) g b.fis _ _ (d', f, o) q)
    split (some fi) e =
        let h = find-name FItem.name n b.fis fi e in
        known fi (fitem_update_type_selection_and_order fi t s r b) (
          subst (λ m. Gives m t s b (fitem_update_type_selection_and_order fi t s r b)) h
            (update-Gives fi t s r b d (ap (λ m. find m b.fis) h ∙ e)))
