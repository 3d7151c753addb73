-- ===== src/Display/Searching.antt =====
-- vgdisplay/vgmini.c: the search for another active directory ends, and keeps the display in order.
use viewglob.Base.{
  ℕ, zero, suc, ◌+◌, ◌<◌, ◌≡◌, refl, sym, ◌∙◌, Bool, true, false, List, Option, none, some, Bytes,
  length, arith, if◌then◌else◌,
}
use viewglob.Base.Int.{ℤ, pos, negsuc}
use viewglob.ParamIo.{}
use viewglob.Display.Named.{is_named, is_named-change}
use viewglob.Display.Lookups.{find-none}
use viewglob.Display.Mini.{DirCont, Vgmini, find_dircont, dircont_set_active, find_rank}
use viewglob.Display.Active.{IsInOrder, ActiveIn, change-IsInOrder}
use viewglob.Display.Ranks.{ranks_from, ranks_from-length, ranks_found, found_named}
use viewglob.Display.Events.{
  update_dc, activate, search_down, search_up, search, activate_found, activate_dc,
}

update_dc-IsInOrder :
    (n : Bytes) (b : Bool) (vg : Vgmini) → IsInOrder vg → IsInOrder (update_dc n b vg)
update_dc-IsInOrder n b vg h =
    change-IsInOrder n (dircont_set_active b) vg (λ dc. refl) (λ dc k. k) h

update_dc-named :
    (n : Bytes) (b : Bool) (vg : Vgmini) (m : Bytes)
    → is_named DirCont.name m vg.dcs ≡ true
    → is_named DirCont.name m (update_dc n b vg).dcs ≡ true
update_dc-named n b vg m h =
    is_named-change DirCont.name n (dircont_set_active b) vg.dcs (λ dc. refl) m ∙ h

activate-IsInOrder :
    (n : Bytes) (vg : Vgmini)
    → is_named DirCont.name n vg.dcs ≡ true
    → IsInOrder vg
    → IsInOrder (activate n vg)
unfolding activate
activate-IsInOrder n vg k h = split vg.active
  where
    shown : Vgmini
    shown = update_dc n true vg

    active :
        (w : Vgmini)
        → IsInOrder w
        → is_named DirCont.name n w.dcs ≡ true
        → IsInOrder (record w { active = some n })
    active w (d, b, a) l = (d, b, l)

    split :
        (o : Option Bytes)
        → IsInOrder
            (record (elim o as (λ p. Vgmini) [
              | none ↦ shown
              | some old ↦ update_dc old false shown
            ]) { active = some n })
    split none = active shown (update_dc-IsInOrder n true vg h) (update_dc-named n true vg n k)
    split (some old) =
        active (update_dc old false shown)
          (update_dc-IsInOrder old false shown (update_dc-IsInOrder n true vg h))
          (update_dc-named old false shown n (update_dc-named n true vg n k))

-- A search ends, with a directory that is there or with none.
abbrev Found : List DirCont → Option (Option Bytes) → Type 0
Found dcs none = ⊥
Found dcs (some o) = ActiveIn o dcs

search_down-Found :
    (fuel r : ℕ) (dcs : List DirCont) → ranks_from r dcs < fuel → Found dcs (search_down fuel r dcs)
search_down-Found zero r dcs l = absurd (omega arith)
search_down-Found (suc n) r dcs l =
    split (find_rank r dcs) refl
      (λ dc e. search_down-Found n (r + 1) dcs (omega (arith, ranks_found r dcs dc e)))
  where
    one :
        (dc : DirCont) (b : Bool)
        → find_rank r dcs ≡ some dc
        → Found dcs (search_down n (r + 1) dcs)
        → Found dcs (if b then search_down n (r + 1) dcs else some (some dc.name))
    one dc true e k = k
    one dc false e k = found_named r dcs dc e

    split :
        (o : Option DirCont)
        → find_rank r dcs ≡ o
        → ((dc : DirCont) → find_rank r dcs ≡ some dc → Found dcs (search_down n (r + 1) dcs))
        → Found dcs (elim o [
          | none ↦ some none
          | some dc ↦ if dc.is_restricted then search_down n (r + 1) dcs else some (some dc.name)
        ])
    split none e further = tt
    split (some dc) e further = one dc dc.is_restricted e (further dc e)

search_up-Found : (r : ℕ) (dcs : List DirCont) → ActiveIn (search_up r dcs) dcs
search_up-Found zero dcs = tt
search_up-Found (suc r) dcs = split (find_rank r dcs) refl (search_up-Found r dcs)
  where
    one :
        (dc : DirCont) (b : Bool)
        → find_rank r dcs ≡ some dc
        → ActiveIn (search_up r dcs) dcs
        → ActiveIn (if b then search_up r dcs else some dc.name) dcs
    one dc true e k = k
    one dc false e k = found_named r dcs dc e

    split :
        (o : Option DirCont)
        → find_rank r dcs ≡ o
        → ActiveIn (search_up r dcs) dcs
        → ActiveIn
            (elim o [
              | none ↦ none
              | some dc ↦ if dc.is_restricted then search_up r dcs else some dc.name
            ])
            dcs
    split none e k = tt
    split (some dc) e k = one dc dc.is_restricted e k

search-Found : (next : Bool) (z : ℤ) (dcs : List DirCont) → Found dcs (search next z dcs)
search-Found true (pos r) dcs =
    search_down-Found (suc (length dcs)) (r + 1) dcs (omega (arith, ranks_from-length (r + 1) dcs))
search-Found true (negsuc zero) dcs =
    search_down-Found (suc (length dcs)) 0 dcs (omega (arith, ranks_from-length 0 dcs))
search-Found true (negsuc (suc n)) dcs = tt
search-Found false (pos r) dcs = search_up-Found r dcs
search-Found false (negsuc n) dcs = tt

-- A search of the active directory.
pub activate_dc-IsInOrder :
    (next : Bool) (vg : Vgmini)
    → IsInOrder vg
    → (w : Vgmini) × (activate_dc next vg ≡ some w) × IsInOrder w
unfolding activate_dc
activate_dc-IsInOrder next vg (d, b, a) = split vg.active a
  where
    found :
        (o : Option (Option Bytes))
        → Found vg.dcs o
        → (w : Vgmini) × ((elim o as (λ p. Option Vgmini) [
          | none ↦ none
          | some f ↦ some (activate_found vg f)
        ])
            ≡ some w)
          × IsInOrder w
    found none k = absurd k
    found (some none) k = (vg, refl, (d, b, a))
    found (some (some n)) k = (activate n vg, refl, activate-IsInOrder n vg k (d, b, a))

    there :
        (n : Bytes) (o : Option DirCont)
        → find_dircont n vg ≡ o
        → is_named DirCont.name n vg.dcs ≡ true
        → (w : Vgmini) × ((elim o as (λ p. Option Vgmini) [
          | none ↦ none
          | some dc ↦ elim (search next dc.rank vg.dcs) [
            | none ↦ none
            | some f ↦ some (activate_found vg f)
          ]
        ])
            ≡ some w)
          × IsInOrder w
    there n none e k = cc (sym (find-none DirCont.name n vg.dcs e) ∙ k)
    there n (some dc) e k = found (search next dc.rank vg.dcs) (search-Found next dc.rank vg.dcs)

    split :
        (o : Option Bytes)
        → ActiveIn o vg.dcs
        → (w : Vgmini) × ((elim o as (λ p. Option Vgmini) [
          | none ↦ some vg
          | some n ↦ elim (find_dircont n vg) [
            | none ↦ none
            | some dc ↦ elim (search next dc.rank vg.dcs) [
              | none ↦ none
              | some f ↦ some (activate_found vg f)
            ]
          ]
        ])
            ≡ some w)
          × IsInOrder w
    split none k = (vg, refl, (d, b, a))
    split (some n) k = there n (find_dircont n vg) refl k
