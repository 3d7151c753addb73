-- ===== src/Scan/Checks.antt =====
-- vgseer/sequences.c: what `check_seqs` leaves, whether a sequence matches or not.
use mathlib.Core.Path.{subst}
use mathlib.Core.Bool.{false≢true}
use viewglob.Base.{
  ℕ, ◌+◌, ◌<◌, ◌≡◌, ◌⊎◌, ◌∙◌, sym, ap, inl, inr, refl, Bool, true, false, not, ◌&&◌, ◌||◌, List, [],
  ◌∷◌, arith, ◌==◌, Bool-cases, if-cases,
}
use viewglob.Libs.{Libs}
use viewglob.Connection.{Connection, MatchStatus}
use viewglob.Sequences.Pattern.{SeqName, seq, SeqState, check_seq}
use viewglob.Sequences.State.{ShellType, MatchEffect, me_error, address, write, SeqStore, Seer}
use viewglob.Sequences.Check.{analyze_effect, func, react, checked, check_each}
use viewglob.Scan.Moves.{ahead, leaves_last, func-Nearer}
use viewglob.Scan.Outcomes.{is_live, check_seq-live, check_seq-longer}

abbrev pub has : SeqName → List SeqName → Bool
has q [] = false
has q (r ∷ rs) = address r == address q || has q rs

abbrev pub distinct : List SeqName → Bool
distinct [] = true
distinct (q ∷ qs) = not (has q qs) && distinct qs

-- The sequences that leave their last character are at their start.
abbrev pub ready : List SeqName → SeqStore → Bool
ready [] store = true
ready (q ∷ qs) store = (not (leaves_last q) || (store q).pos == 0) && ready qs store

ready-write :
    (q : SeqName) (st : SeqState) (qs : List SeqName) (store : SeqStore)
    → has q qs ≡ false
    → ready qs store ≡ true
    → ready qs (write q st store) ≡ true
unfolding write
ready-write q st [] store h r = refl
ready-write q st (x ∷ xs) store h r = ground (arith, ready-write q st xs store)

-- `analyze_effect` leaves the place in the buffer alone.
analyze_effect-conn :
    (e : MatchEffect) (s : Seer)
    → ((analyze_effect e s).conn.filled ≡ s.conn.filled)
      × ((analyze_effect e s).conn.pos ≡ s.conn.pos)
      × ((analyze_effect e s).conn.seglen ≡ s.conn.seglen)
      × ((analyze_effect e s).conn.status ≡ s.conn.status)
unfolding analyze_effect
analyze_effect-conn me_error s = (refl, refl, refl, refl)
analyze_effect-conn _ s = (refl, refl, refl, refl)

-- A match moves the connection on.
abbrev pub Reacted : Connection → Connection → Type 0
Reacted a b = (b.status.matched ≡ true) × (ahead b < ahead a) × (b.seglen ≡ 0)

-- No match: the connection is where it was.
abbrev pub Stays : Connection → Connection → Type 0
Stays a b =
    (b.status.matched ≡ false)
    × (b.status.no_match ≡ true)
    × (b.filled ≡ a.filled)
    × (b.pos ≡ a.pos)
    × (b.seglen ≡ a.seglen)
    × (b.pl ≡ a.pl)

-- What is known of the sequence `q`, once it was checked if `seen`: it is at its start, or some
-- match is in progress.
abbrev pub settled : Bool → SeqName → Seer → Bool
settled seen q s = s.conn.status.in_progress || (not seen || (s.store q).pos == 0)

-- No match: the place in the buffer is the same.
abbrev pub Waits : Bool → SeqName → Seer → Seer → Type 0
Waits seen q s t =
    (t.conn.status.matched ≡ false)
    × (t.conn.filled ≡ s.conn.filled)
    × (t.conn.pos ≡ s.conn.pos)
    × (t.conn.seglen ≡ s.conn.seglen)
    × (t.conn.pl ≡ s.conn.pl)
    × (is_live (t.store q) ≡ true)
    × (settled seen q t ≡ true)

no_match_stays : (a b : Bool) → a ≡ true → (a || b) ≡ true
no_match_stays a b h = ground arith

and_left : (a b : Bool) → (a && b) ≡ true → a ≡ true
and_left a b h = ground arith

and_right : (a b : Bool) → (a && b) ≡ true → b ≡ true
and_right a b h = ground arith

not-true : (a : Bool) → not a ≡ true → a ≡ false
not-true a h = ground arith

or_both : (a b : Bool) → a ≡ false → b ≡ false → (a || b) ≡ false
or_both a b h k = ground arith

at_zero :
    (q : SeqName) (store : SeqStore)
    → leaves_last q ≡ true
    → (not (leaves_last q) || (store q).pos == 0) ≡ true
    → (store q).pos ≡ 0
at_zero q store l h = ground arith

or_false : (a b : Bool) → (a || b) ≡ false → b ≡ false
or_false a b h = ground arith

settle_same : (a b seen z : Bool) → (b || z) ≡ true → ((a || b) || (not (seen || true) || z)) ≡ true
settle_same a b seen z h = ground arith

settle_other :
    (a b seen z : Bool)
    → (a || (not seen || z)) ≡ true
    → ((a || b) || (not (seen || false) || z)) ≡ true
settle_other a b seen z h = ground arith

settle_none :
    (a seen z : Bool) → (a || (not seen || z)) ≡ true → (a || (not (seen || false) || z)) ≡ true
settle_none a seen z h = ground arith

either_assoc : (a b c : Bool) → ((a || b) || c) ≡ (a || (b || c))
either_assoc a b c = ground arith

module _ (libs : Libs) (shell : ShellType) where
  react-Reacted :
      (q : SeqName) (s : Seer)
      → s.conn.pos + s.conn.seglen < s.conn.filled
      → (leaves_last q ≡ false) ⊎ (0 < s.conn.seglen)
      → s.conn.status.matched ≡ true
      → Reacted s.conn (react libs shell q s).conn
  react-Reacted q s h l m =
      let near = func-Nearer libs shell s h q l in
      let (f, p, n, t) = analyze_effect-conn (func libs shell q s).1 (func libs shell q s).0 in
      (
        ap (λ (x : MatchStatus). x.matched) (t ∙ near.2) ∙ m,
        omega (arith, f, p, near.0),
        n ∙ near.1,
      )

  step_or_longer :
      (c : ℕ) (x : SeqName) (s : Seer)
      → (not (leaves_last x) || (s.store x).pos == 0) ≡ true ⊎ (0 < s.conn.seglen)
      → s.conn.status.matched ≡ false
      → (checked libs shell c x s).conn.status.matched ≡ true
      → (leaves_last x ≡ false) ⊎ (0 < s.conn.seglen)
  step_or_longer c x s r m hit = elim (Bool-cases (leaves_last x)) [
    | inr n ↦ inl n
    | inl y ↦ elim r [
      | inr p ↦ inr p
      | inl z ↦
          let no = check_seq-longer c x (s.store x) y (at_zero x s.store y z) in
          absurd (false≢true (sym (or_both _ _ m no) ∙ hit))
    ]
  ]

  -- The loop either ends with a reaction or leaves the connection where it is.
  pub check_each-moves :
      (c : ℕ) (qs : List SeqName) (s : Seer)
      → s.conn.pos + s.conn.seglen < s.conn.filled
      → distinct qs ≡ true
      → (ready qs s.store ≡ true) ⊎ (0 < s.conn.seglen)
      → s.conn.status.matched ≡ false
      → s.conn.status.no_match ≡ true
      → Reacted s.conn (check_each libs shell c qs s).conn
        ⊎ Stays s.conn (check_each libs shell c qs s).conn
  unfolding check_each
  check_each-moves c [] s h d r m n = inr (m, n, refl, refl, refl, refl)
  check_each-moves c (x ∷ xs) s h d r m n =
      if-cases (λ (z : Seer). Reacted s.conn z.conn ⊎ Stays s.conn z.conn) t.conn.status.matched
        (λ hit. inl (react-Reacted x t h (step_or_longer c x s first m hit) hit))
        (λ miss. check_each-moves c xs t h (and_right _ _ d) still miss (no_match_stays _ _ n))
    where
      t : Seer
      t = checked libs shell c x s

      first : (not (leaves_last x) || (s.store x).pos == 0) ≡ true ⊎ (0 < s.conn.seglen)
      first = elim r [ inl z ↦ inl (and_left _ _ z) | inr p ↦ inr p ]

      still : (ready xs t.store ≡ true) ⊎ (0 < s.conn.seglen)
      still = elim r [
        | inl z ↦ inl (ready-write x _ xs s.store (not-true _ (and_left _ _ d)) (and_right _ _ z))
        | inr p ↦ inr p
      ]

  module _ (q : SeqName) (own : (r : SeqName) → (address r == address q) ≡ true → r ≡ q) where
    checked-Waits :
        (c : ℕ) (r : SeqName) (s : Seer) (seen : Bool)
        → is_live (s.store q) ≡ true
        → settled seen q s ≡ true
        → (checked libs shell c r s).conn.status.matched ≡ false
        → Waits (seen || address r == address q) q s (checked libs shell c r s)
    unfolding write
    checked-Waits c r s seen l k n = elim (Bool-cases (address r == address q)) [
      | inl same ↦
          let (live, at) =
            check_seq-live c (seq r) (s.store r)
              (subst (λ x. is_live (s.store x) ≡ true) (sym (own r same)) l) (or_false _ _ n) in
          (
            n,
            refl,
            refl,
            refl,
            refl,
            rw same live,
            rw same (
                settle_same s.conn.status.in_progress
                  (check_seq c (seq r) (s.store r)).1.in_progress seen
                  ((check_seq c (seq r) (s.store r)).0.pos == 0) at),
          )
      | inr other ↦ (
        n,
        refl,
        refl,
        refl,
        refl,
        rw other l,
        rw other (
            settle_other s.conn.status.in_progress (check_seq c (seq r) (s.store r)).1.in_progress
              seen ((s.store q).pos == 0) k),
      )
    ]

    -- The loop either ends with a reaction or checks the whole group.
    pub check_each-cases :
        (c : ℕ) (qs : List SeqName) (s : Seer) (seen : Bool)
        → s.conn.pos + s.conn.seglen < s.conn.filled
        → distinct qs ≡ true
        → (ready qs s.store ≡ true) ⊎ (0 < s.conn.seglen)
        → is_live (s.store q) ≡ true
        → settled seen q s ≡ true
        → s.conn.status.matched ≡ false
        → Reacted s.conn (check_each libs shell c qs s).conn
          ⊎ Waits (seen || has q qs) q s (check_each libs shell c qs s)
    unfolding check_each
    check_each-cases c [] s seen h d r l k m = inr (
      m,
      refl,
      refl,
      refl,
      refl,
      l,
      settle_none s.conn.status.in_progress seen ((s.store q).pos == 0) k,
    )
    check_each-cases c (x ∷ xs) s seen h d r l k m =
        if-cases (λ z. Reacted s.conn z.conn ⊎ Waits (seen || has q (x ∷ xs)) q s z)
          t.conn.status.matched (λ hit. inl (react-Reacted x t h (longer hit) hit))
          λ miss.
            let w = checked-Waits c x s seen l k miss in
            rest (
              check_each-cases c xs t (seen || address x == address q) h (and_right _ _ d) still w.5
                w.6 w.0)
      where
        t : Seer
        t = checked libs shell c x s

        longer : t.conn.status.matched ≡ true → (leaves_last x ≡ false) ⊎ (0 < s.conn.seglen)
        longer hit =
            step_or_longer c x s (elim r [ inl z ↦ inl (and_left _ _ z) | inr p ↦ inr p ]) m hit

        still : (ready xs t.store ≡ true) ⊎ (0 < s.conn.seglen)
        still = elim r [
          | inl z ↦ inl (ready-write x _ xs s.store (not-true _ (and_left _ _ d)) (and_right _ _ z))
          | inr p ↦ inr p
        ]

        rest :
            Reacted s.conn (check_each libs shell c xs t).conn
              ⊎ Waits
                  ((seen || address x == address q) || has q xs)
                  q
                  t
                  (check_each libs shell c xs t)
            → Reacted s.conn (check_each libs shell c xs t).conn
              ⊎ Waits (seen || has q (x ∷ xs)) q s (check_each libs shell c xs t)
        rest (inl e) = inl e
        rest (inr v) = inr (
          v.0,
          v.1,
          v.2,
          v.3,
          v.4,
          v.5,
          subst (λ b. settled b q (check_each libs shell c xs t) ≡ true)
              (either_assoc seen (address x == address q) (has q xs)) v.6,
        )
