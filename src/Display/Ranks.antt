-- ===== src/Display/Ranks.antt =====
-- vgdisplay/vgmini.c: the loop over the ranks of `rearrange_and_show` ends.
use viewglob.Base.{
  ℕ, zero, suc, ◌+◌, ◌≤◌, ◌<◌, ◌≡◌, refl, sym, ap, ◌∙◌, Bool, true, false, List, [], ◌∷◌, Option,
  none, some, Bytes, ◌==◌, if◌then◌else◌, inl, inr, Bool-cases, length, arith, ltb, ◌||◌,
}
use viewglob.Base.Int.{ℤ, pos, negsuc}
use viewglob.ParamIo.{streq}
use viewglob.ParamIo.Equal.{streq_self}
use viewglob.Display.Named.{
  find_named, change_named, is_named, AreDistinct, is_named-change, AreDistinct-change,
}
use viewglob.Display.Each.{Each, Each-change}
use viewglob.Display.Listing.{flush_lem}
use viewglob.Display.Mini.{
  DirCont, find_rank, has_rank, dircont_commit, leb_score, score_of, arrange,
}
use viewglob.Display.Active.{BoxNamed}

-- How many have a rank from `r` on.
is_from : ℕ → ℤ → ℕ
is_from r (pos n) = if ltb n r then 0 else 1
is_from r (negsuc n) = 0

pub ranks_from : ℕ → List DirCont → ℕ
ranks_from r [] = 0
ranks_from r (dc ∷ dcs) = is_from r dc.rank + ranks_from r dcs

from_one : (r : ℕ) (z : ℤ) → is_from r z ≤ 1
unfolding is_from
from_one r (pos n) = ground arith
from_one r (negsuc n) = omega arith

pub ranks_from-length : (r : ℕ) (dcs : List DirCont) → ranks_from r dcs ≤ length dcs
unfolding ranks_from
ranks_from-length r [] = omega arith
ranks_from-length r (dc ∷ dcs) = omega (arith, from_one r dc.rank, ranks_from-length r dcs)

from_next : (r : ℕ) (z : ℤ) → is_from (r + 1) z ≤ is_from r z
unfolding is_from
from_next r (pos n) = ground arith
from_next r (negsuc n) = omega arith

ranks_next : (r : ℕ) (dcs : List DirCont) → ranks_from (r + 1) dcs ≤ ranks_from r dcs
unfolding ranks_from
ranks_next r [] = omega arith
ranks_next r (dc ∷ dcs) = omega (arith, from_next r dc.rank, ranks_next r dcs)

from_here :
    (r : ℕ) (z : ℤ)
    → elim z [ pos n ↦ n == r | negsuc n ↦ false ] ≡ true
    → is_from (r + 1) z + 1 ≤ is_from r z
unfolding is_from
from_here r (pos n) h = ground arith
from_here r (negsuc n) h = cc h

pub ranks_found :
    (r : ℕ) (dcs : List DirCont) (dc : DirCont)
    → find_rank r dcs ≡ some dc
    → ranks_from (r + 1) dcs + 1 ≤ ranks_from r dcs
unfolding ranks_from
ranks_found r [] dc h = cc h
ranks_found r (d ∷ dcs) dc h = elim (Bool-cases (has_rank r d)) [
  | inl y ↦ omega (arith, from_here r d.rank y, ranks_next r dcs)
  | inr y ↦ omega (
    arith,
    from_next r d.rank,
    ranks_found r dcs dc (sym (ap (λ (b : Bool). if b then some d else find_rank r dcs) y) ∙ h),
  )
]

pub found_named :
    (r : ℕ) (dcs : List DirCont) (dc : DirCont)
    → find_rank r dcs ≡ some dc
    → is_named DirCont.name dc.name dcs ≡ true
found_named r [] dc h = cc h
found_named r (d ∷ dcs) dc h = elim (Bool-cases (has_rank r d)) [
  | inl y ↦
      let e : d ≡ dc = cc (sym (ap (λ (b : Bool). if b then some d else find_rank r dcs) y) ∙ h) in
      rw (ap (λ (c : DirCont). streq c.name dc.name) e, streq_self dc.name) refl
  | inr y ↦
      either (streq d.name dc.name) (
        found_named r dcs dc (sym (ap (λ (b : Bool). if b then some d else find_rank r dcs) y) ∙ h))
]
  where
    either : (b : Bool) {c : Bool} → c ≡ true → (b || c) ≡ true
    either true e = refl
    either false e = e

ranks-change :
    (r : ℕ) (n : Bytes) (f : DirCont → DirCont) (dcs : List DirCont)
    → ((dc : DirCont) → (f dc).rank ≡ dc.rank)
    → ranks_from r (change_named DirCont.name n f dcs) ≡ ranks_from r dcs
unfolding ranks_from
ranks-change r n f [] h = refl
ranks-change r n f (dc ∷ dcs) h = elim (Bool-cases (streq dc.name n)) [
  | inl y ↦ rw (y, h dc) refl
  | inr y ↦ rw (y, ranks-change r n f dcs h) refl
]

either_named :
    (dcs : List DirCont) (m n : Bytes) (x : Bool)
    → is_named DirCont.name m dcs ≡ true
    → is_named DirCont.name n dcs ≡ true
    → is_named DirCont.name (if x then m else n) dcs ≡ true
either_named dcs m n true h k = h
either_named dcs m n false h k = k

-- What the loop gives: a directory that is there, and the directories in order.
abbrev pub Arranged : Option (Bytes × List DirCont) → List DirCont → Type 0
Arranged o dcs =
    (highest : Bytes) × (ds : List DirCont) × (o ≡ some (highest, ds))
    × (is_named DirCont.name highest ds ≡ true)
    × AreDistinct DirCont.name ds
    × Each BoxNamed ds
    × ((n : Bytes) → is_named DirCont.name n ds ≡ is_named DirCont.name n dcs)

pub arrange-Arranged :
    (fuel r : ℕ) (highest : Bytes) (dcs : List DirCont)
    → ranks_from r dcs < fuel
    → is_named DirCont.name highest dcs ≡ true
    → AreDistinct DirCont.name dcs
    → Each BoxNamed dcs
    → Arranged (arrange fuel r highest dcs) dcs
unfolding arrange
arrange-Arranged zero r highest dcs l h d b = absurd (omega arith)
arrange-Arranged (suc n) r highest dcs l h d b =
    split (find_rank r dcs) refl (λ next ds m. arrange-Arranged n (r + 1) next ds m)
  where
    committed : DirCont → List DirCont
    committed dc = change_named DirCont.name dc.name dircont_commit dcs

    split :
        (o : Option DirCont)
        → find_rank r dcs ≡ o
        → ((next : Bytes) (ds : List DirCont)
            → ranks_from (r + 1) ds < n
            → is_named DirCont.name next ds ≡ true
            → AreDistinct DirCont.name ds
            → Each BoxNamed ds
            → Arranged (arrange n (r + 1) next ds) ds)
        → Arranged
            (elim o [
              | none ↦ some (highest, dcs)
              | some dc ↦
                  arrange n
                    (r + 1)
                    (if leb_score
                        (score_of (find_named DirCont.name highest (committed dc)))
                        (dircont_commit dc).score
                      then dc.name
                      else highest)
                    (committed dc)
            ])
            dcs
    split none e ih = (highest, dcs, refl, h, d, b, λ m. refl)
    split (some dc) e ih =
        let same = is_named-change DirCont.name dc.name dircont_commit dcs (λ c. refl) in
        let next : Bool → Bytes = λ x. if x then dc.name else highest in
        let at : (x : Bool) → is_named DirCont.name (next x) (committed dc) ≡ true =
          λ x. same (next x) ∙ either_named dcs dc.name highest x (found_named r dcs dc e) h in
        let (top, ds, p, q, d', b', s) =
          ih
            (next (
              leb_score (score_of (find_named DirCont.name highest (committed dc)))
                (dircont_commit dc).score))
            (committed dc)
            (omega (
              arith,
              ranks_found r dcs dc e,
              ranks-change (r + 1) dc.name dircont_commit dcs (λ c. refl),
            ))
            (at (
              leb_score (score_of (find_named DirCont.name highest (committed dc)))
                (dircont_commit dc).score))
            (AreDistinct-change DirCont.name dc.name dircont_commit dcs (λ c. refl) d)
            (Each-change DirCont.name BoxNamed dc.name dircont_commit dcs
              (λ c k. (flush_lem c.file_box k).0) b) in
        (top, ds, p, q, d', b', λ m. s m ∙ same m)
