-- ===== src/Scan/Rounds.antt =====
-- vgseer/vgseer.c: one round of the loop of `scan_sequences`.
use mathlib.Core.Path.{subst}
use mathlib.Core.Bool.{false≢true}
use viewglob.Base.{
  ℕ, zero, suc, ◌+◌, ◌-◌, ◌*◌, ◌≤◌, ◌<◌, ◌≡◌, ◌⊎◌, ◌∙◌, sym, ap, inl, inr, refl, true, false, some,
  arith, ◌==◌, ltb, Bool-cases, if-cases,
}
use viewglob.Libs.{Libs}
use viewglob.Connection.{Connection, at_prompt, ms_no_match, next_byte}
use viewglob.CmdLine.Edit.{Editor}
use viewglob.CmdLine.Wipe.{cmd_del_trailing_CRs}
use viewglob.Sequences.Pattern.{SeqName, cmd_wrapped, carriage_return}
use viewglob.Sequences.State.{ShellType, address, seq_group, Seer, clear_seqs}
use viewglob.Sequences.Check.{check_seqs}
use viewglob.Scan.{is_at_prompt, skip_byte, advance, scan_byte, scan_loop}
use viewglob.Scan.Moves.{ahead}
use viewglob.Scan.Checks.{
  has, ready, Reacted, Stays, Waits, settled, check_each-moves, check_each-cases,
}
use viewglob.Scan.Ends.{
  IsSteady, keeps, Advances, primed, primed_pos, primed_live, primed_conn, distinct-seq_group,
  ready-seq_group, own_wrapped, own_return, has_wrapped, has_return, cleared_keeps, elsewhere_keeps,
  at_start_keeps, longer_keeps, is_at_prompt_eq,
}

-- The cases of `advance`. A byte that is skipped may have changed the command line before.
advance-cases {ℓ} :
    (libs : Libs) (shell : ShellType) (P : Seer → Type ℓ) (v : Seer)
    → (v.conn.status.matched ≡ true → P (clear_seqs shell v.conn.pl v))
    → (v.conn.status.matched ≡ false
        → v.conn.status.in_progress ≡ true
        → P (record v { conn = record v.conn { seglen = v.conn.seglen + 1 } }))
    → (v.conn.status.matched ≡ false
        → v.conn.status.in_progress ≡ false
        → (e : Editor) → P (skip_byte libs shell (record v { editor = e })))
    → (v.conn.status.matched ≡ false → v.conn.status.no_match ≡ true)
    → P (advance libs shell v)
unfolding advance
advance-cases libs shell P v f g h n = if-cases P v.conn.status.matched f λ m.
    if-cases P v.conn.status.in_progress (g m) λ p.
      if-cases P v.conn.status.no_match
        (λ k.
          if-cases (λ (t : Seer). P (skip_byte libs shell t)) (is_at_prompt v.conn.pl)
            (λ _. h m p _) (λ _. h m p v.editor))
        λ k. absurd (false≢true (sym k ∙ n m))

advance-Advances :
    (libs : Libs) (shell : ShellType) (a : Connection) (v : Seer)
    → a.pos + a.seglen < a.filled
    → Reacted a v.conn ⊎ Stays a v.conn
    → Advances a (advance libs shell v).conn
unfolding clear_seqs
advance-Advances libs shell a v h (inl e) =
    advance-cases libs shell (λ (t : Seer). Advances a t.conn) v (λ m. inl (e.1, e.2))
      (λ m. absurd (false≢true (sym m ∙ e.0))) (λ m. absurd (false≢true (sym m ∙ e.0)))
      (λ m. absurd (false≢true (sym m ∙ e.0)))
advance-Advances libs shell a v h (inr e) =
    advance-cases libs shell (λ (t : Seer). Advances a t.conn) v
      (λ m. absurd (false≢true (sym e.0 ∙ m)))
      (λ m p. inr (omega (arith, e.2, e.3), omega (arith, e.4)))
      (λ m p _. inl (omega (arith, e.2, e.3, h), refl)) (λ m. e.1)

-- What a round keeps of one of the two sequences.
advance-keeps :
    (libs : Libs) (shell : ShellType) (q : SeqName) (s v : Seer)
    → has q (seq_group shell at_prompt) ≡ true
    → Reacted s.conn v.conn ⊎ Stays s.conn v.conn
    → (is_at_prompt s.conn.pl ≡ false) ⊎ (Reacted s.conn v.conn ⊎ Waits true q s v)
    → keeps q (advance libs shell v) ≡ true
advance-keeps libs shell q s v m (inl e) w =
    advance-cases libs shell (λ (t : Seer). keeps q t ≡ true) v (λ _. cleared_keeps shell q v m)
      (λ n. absurd (false≢true (sym n ∙ e.0))) (λ n. absurd (false≢true (sym n ∙ e.0)))
      (λ n. absurd (false≢true (sym n ∙ e.0)))
advance-keeps libs shell q s v m (inr e) (inl away) =
    let out : is_at_prompt v.conn.pl ≡ false = subst (λ l. is_at_prompt l ≡ false) (sym e.5) away in
    advance-cases libs shell (λ (t : Seer). keeps q t ≡ true) v
      (λ n. absurd (false≢true (sym e.0 ∙ n)))
      (λ _ _.
        elsewhere_keeps q (record v { conn = record v.conn { seglen = v.conn.seglen + 1 } }) out)
      (λ _ _ ed. elsewhere_keeps q (skip_byte libs shell (record v { editor = ed })) out) (λ _. e.1)
advance-keeps libs shell q s v m (inr e) (inr (inl r)) = absurd (false≢true (sym e.0 ∙ r.0))
advance-keeps libs shell q s v m (inr e) (inr (inr w)) =
    advance-cases libs shell (λ (t : Seer). keeps q t ≡ true) v
      (λ n. absurd (false≢true (sym e.0 ∙ n)))
      (λ _ _.
        longer_keeps q (record v { conn = record v.conn { seglen = v.conn.seglen + 1 } })
          v.conn.seglen refl w.5)
      (λ _ p ed. at_start_keeps q (skip_byte libs shell (record v { editor = ed })) (rw p at w.6))
      (λ _. e.1)

start_of :
    (q : SeqName) (s : Seer) (p : ℕ)
    → keeps q s ≡ true
    → is_at_prompt s.conn.pl ≡ true
    → p ≡ (s.store q).pos
    → (p == 0) ≡ true ⊎ (0 < s.conn.seglen)
start_of q s p k y e = ground arith

ready_of :
    (shell : ShellType) (s : Seer)
    → IsSteady s
    → (ready (seq_group shell s.conn.pl) (primed shell s).store ≡ true) ⊎ (0 < s.conn.seglen)
ready_of shell s k = elim (Bool-cases (is_at_prompt s.conn.pl)) [
  | inr n ↦ inl (ready-seq_group shell s.conn.pl (primed shell s).store (inl n))
  | inl y ↦
      elim (start_of cmd_wrapped s _ k.wrapped y
        (primed_pos shell cmd_wrapped own_wrapped (has_wrapped shell) s)) [
          | inr p ↦ inr p
          | inl a ↦
              elim (start_of carriage_return s _ k.returned y
                (primed_pos shell carriage_return own_return (has_return shell) s)) [
                  | inr p ↦ inr p
                  | inl b ↦
                      inl (ready-seq_group shell s.conn.pl (primed shell s).store (inr (a, b)))
                ]
        ]
]

-- What `check_seqs` does, called as a round calls it.
module _ (libs : Libs) (shell : ShellType) (s : Seer)
    (h : s.conn.pos + s.conn.seglen < s.conn.filled) (k : IsSteady s) where
  primed_place :
      (primed shell s).conn.pos + (primed shell s).conn.seglen < (primed shell s).conn.filled
  primed_place =
      subst (λ (b : Connection). b.pos + b.seglen < b.filled) (sym (primed_conn shell s)) h

  primed-ready :
      (ready (seq_group shell (primed shell s).conn.pl) (primed shell s).store ≡ true)
      ⊎ (0 < (primed shell s).conn.seglen)
  primed-ready =
      subst
        (λ (b : Connection).
          (ready (seq_group shell b.pl) (primed shell s).store ≡ true) ⊎ (0 < b.seglen))
        (sym (primed_conn shell s)) (ready_of shell s k)

  moved :
      Reacted s.conn (check_seqs libs shell (primed shell s)).conn
      ⊎ Stays s.conn (check_seqs libs shell (primed shell s)).conn
  unfolding check_seqs
  moved =
      let u = primed shell s in
      subst
        (λ (b : Connection).
          Reacted b (check_seqs libs shell u).conn ⊎ Stays b (check_seqs libs shell u).conn)
        (primed_conn shell s)
        (check_each-moves libs shell (next_byte u.conn) (seq_group shell u.conn.pl)
          (record u { conn = record u.conn { status = ms_no_match } }) primed_place
          (distinct-seq_group shell u.conn.pl) primed-ready refl refl)

  waited :
      (q : SeqName)
      → ((r : SeqName) → (address r == address q) ≡ true → r ≡ q)
      → has q (seq_group shell at_prompt) ≡ true
      → keeps q s ≡ true
      → is_at_prompt s.conn.pl ≡ true
      → Reacted s.conn (check_seqs libs shell (primed shell s)).conn
        ⊎ Waits true q s (check_seqs libs shell (primed shell s))
  unfolding check_seqs
  waited q own m e y =
      let u = primed shell s in
      let l : s.conn.pl ≡ at_prompt = is_at_prompt_eq s.conn.pl y in
      let seen : has q (seq_group shell u.conn.pl) ≡ true = rw (primed_conn shell s, l) m in
      elim (check_each-cases libs shell q own (next_byte u.conn) (seq_group shell u.conn.pl)
        (record u { conn = record u.conn { status = ms_no_match } }) false primed_place
        (distinct-seq_group shell u.conn.pl) primed-ready (primed_live shell q own m s y e) refl
        refl) [
          | inl r ↦
              inl (subst (λ b. Reacted b (check_seqs libs shell u).conn) (primed_conn shell s) r)
          | inr w ↦
              let c = primed_conn shell s in
              inr (
                w.0,
                w.1 ∙ ap (λ (b : Connection). b.filled) c,
                w.2 ∙ ap (λ (b : Connection). b.pos) c,
                w.3 ∙ ap (λ (b : Connection). b.seglen) c,
                w.4 ∙ ap (λ (b : Connection). b.pl) c,
                w.5,
                subst (λ b. settled b q (check_seqs libs shell u) ≡ true) seen w.6,
              )
        ]

  kept :
      (q : SeqName)
      → ((r : SeqName) → (address r == address q) ≡ true → r ≡ q)
      → has q (seq_group shell at_prompt) ≡ true
      → keeps q s ≡ true
      → keeps q (advance libs shell (check_seqs libs shell (primed shell s))) ≡ true
  kept q own m e =
      advance-keeps libs shell q s (check_seqs libs shell (primed shell s)) m moved
        (elim (Bool-cases (is_at_prompt s.conn.pl)) [
          | inr n ↦ inl n
          | inl y ↦ inr (waited q own m e y)
        ])

-- While there is content ahead, in a state in which the two sequences that leave their last character
-- are in step with the segment (`IsSteady`), a round of the loop leads to such a
-- state, and comes nearer to the end of the content or makes the segment longer.
pub scan_byte-Advances :
    (libs : Libs) (shell : ShellType) (s : Seer)
    → s.conn.pos + s.conn.seglen < s.conn.filled
    → IsSteady s
    → IsSteady (scan_byte libs shell s) × Advances s.conn (scan_byte libs shell s).conn
unfolding scan_byte
scan_byte-Advances libs shell s h k =
    let t : Seer = record s { editor = cmd_del_trailing_CRs libs s.editor } in
    let k' : IsSteady t = record { wrapped = k.wrapped; returned = k.returned } in
    (
      record {
        wrapped = kept libs shell t h k' cmd_wrapped own_wrapped (has_wrapped shell) k.wrapped;
        returned = kept libs shell t h k' carriage_return own_return (has_return shell) k.returned;
      },
      advance-Advances libs shell t.conn (check_seqs libs shell (primed shell t)) h
          (moved libs shell t h k'),
    )

-- How many rounds there can be.
abbrev pub rounds_left : Connection → ℕ
rounds_left b = ahead b * (ahead b + 1) + (ahead b - b.seglen)

fewer_ahead : (a a' l : ℕ) → a' < a → a' * (a' + 1) + (a' - 0) < a * (a + 1) + (a - l)
fewer_ahead a a' l h = grind arith

Advances-rounds_left :
    (a b : Connection) → a.pos + a.seglen < a.filled → Advances a b → rounds_left b < rounds_left a
Advances-rounds_left a b h (inl e) = rw e.1 (fewer_ahead (ahead a) (ahead b) a.seglen e.0)
Advances-rounds_left a b h (inr e) = rw (e.0, e.1) (omega arith)

-- The loop ended: the whole content was gone through, and what it relies on is there for the next.
pub record Ended (libs : Libs) (shell : ShellType) (fuel : ℕ) (s : Seer) : Type 0 where
  pub result : Seer
  pub returns : scan_loop libs shell fuel s ≡ some result
  pub steady : IsSteady result
  pub through : result.conn.filled ≤ result.conn.pos + result.conn.seglen

-- From a state in which the two sequences that leave their last character are in step with the segment
-- (`IsSteady`), the loop of `scan_sequences` ends within `rounds_left` rounds,
-- in such a state and behind the whole content.
pub scan_loop-Ended :
    (libs : Libs) (shell : ShellType) (fuel : ℕ) (s : Seer)
    → rounds_left s.conn < fuel
    → IsSteady s
    → Ended libs shell fuel s
unfolding scan_loop
scan_loop-Ended libs shell zero s f k = absurd (omega arith)
scan_loop-Ended libs shell (suc fuel) s f k =
    elim (Bool-cases (ltb (s.conn.pos + s.conn.seglen) s.conn.filled)) [
      | inr n ↦ record { result = s; returns = rw n; steady = k; through = ground arith }
      | inl y ↦
          let h : s.conn.pos + s.conn.seglen < s.conn.filled = ground arith in
          let (k', a) = scan_byte-Advances libs shell s h k in
          let r = Advances-rounds_left s.conn (scan_byte libs shell s).conn h a in
          let e = scan_loop-Ended libs shell fuel (scan_byte libs shell s) (omega arith) k' in
          record {
            result = e.result;
            returns = rw y e.returns;
            steady = e.steady;
            through = e.through;
          }
    ]
