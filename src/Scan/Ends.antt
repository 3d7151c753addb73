-- ===== src/Scan/Ends.antt =====
-- vgseer/vgseer.c: the loop of `scan_sequences` ends.
use viewglob.Base.{
  ℕ, ◌+◌, ◌<◌, ◌≡◌, ◌⊎◌, ◌∙◌, sym, ap, inl, inr, refl, Bool, true, false, not, ◌&&◌, ◌||◌, List, [],
  ◌∷◌, arith, ◌==◌, if◌then◌else◌, Bool-cases, if-cases,
}
use mathlib.Core.Path.{subst}
use mathlib.Core.Bool.{false≢true}
use viewglob.Connection.{Connection, ProcessLevel, at_prompt, is_in_progress}
use viewglob.Sequences.Pattern.{SeqName, ps1_separator, cmd_wrapped, carriage_return, SeqState}
use viewglob.Sequences.State.{
  ShellType, bash, zsh, address, seq_group, write, each, SeqStore, Seer, enable_all_seqs,
  clear_seqs,
}
use viewglob.Scan.{is_at_prompt}
use viewglob.Scan.Moves.{ahead}
use viewglob.Scan.Outcomes.{is_live}
use viewglob.Scan.Checks.{has, distinct, ready}

-- A change that keeps a property of every state gives it to the members of the group.
not_first : (a b : Bool) → a ≡ false → (a || b) ≡ true → b ≡ true
not_first a b h k = ground arith

each-has :
    (f : SeqState → SeqState) (p : SeqState → Bool)
    → ((st : SeqState) → p (f st) ≡ true)
    → (q : SeqName) (qs : List SeqName) (store : SeqStore)
    → (has q qs ≡ true) ⊎ (p (store q) ≡ true)
    → p (each f qs store q) ≡ true
unfolding each write
each-has f p h q [] store (inl e) = absurd (false≢true e)
each-has f p h q [] store (inr e) = e
each-has f p h q (x ∷ xs) store e =
    each-has f p h q xs (write x (f (store x)) store) (elim (Bool-cases (address x == address q)) [
      | inl same ↦ inr (rw same (h (store x)))
      | inr other ↦ elim e [ inl m ↦ inl (not_first _ _ other m) | inr k ↦ inr (rw other k) ]
    ])

-- A change that keeps the positions.
each_pos :
    (f : SeqState → SeqState)
    → ((st : SeqState) → (f st).pos ≡ st.pos)
    → (q : SeqName) → ((r : SeqName) → (address r == address q) ≡ true → r ≡ q)
    → (qs : List SeqName) (store : SeqStore) → (each f qs store q).pos ≡ (store q).pos
unfolding each write
each_pos f h q own [] store = refl
each_pos f h q own (x ∷ xs) store =
    each_pos f h q own xs (write x (f (store x)) store)
    ∙ if-cases (λ (st : SeqState). st.pos ≡ (store q).pos) (address x == address q)
        (λ same. h (store x) ∙ ap (λ r. (store r).pos) (own x same)) (λ other. refl)

pub own_wrapped : (r : SeqName) → (address r == address cmd_wrapped) ≡ true → r ≡ cmd_wrapped
unfolding address
own_wrapped ps1_separator e = ground arith
own_wrapped _ e = ground arith

pub own_return : (r : SeqName) → (address r == address carriage_return) ≡ true → r ≡ carriage_return
unfolding address
own_return ps1_separator e = ground arith
own_return _ e = ground arith

pub distinct-seq_group : (sh : ShellType) (l : ProcessLevel) → distinct (seq_group sh l) ≡ true
unfolding seq_group address
distinct-seq_group bash at_prompt = refl
distinct-seq_group bash _ = refl
distinct-seq_group zsh at_prompt = refl
distinct-seq_group zsh _ = refl

pub has_wrapped : (sh : ShellType) → has cmd_wrapped (seq_group sh at_prompt) ≡ true
unfolding seq_group address
has_wrapped bash = refl
has_wrapped zsh = refl

pub has_return : (sh : ShellType) → has carriage_return (seq_group sh at_prompt) ≡ true
unfolding seq_group address
has_return bash = refl
has_return zsh = refl

-- Only the two sequences at the prompt leave their last character.
pub ready-seq_group :
    (sh : ShellType) (l : ProcessLevel) (store : SeqStore)
    → (is_at_prompt l ≡ false)
      ⊎ ((store cmd_wrapped).pos == 0) ≡ true × (((store carriage_return).pos == 0) ≡ true)
    → ready (seq_group sh l) store ≡ true
unfolding seq_group
ready-seq_group sh at_prompt store (inl e) = cc
ready-seq_group bash at_prompt store (inr (a, b)) = rw (a, b)
ready-seq_group zsh at_prompt store (inr (a, b)) = rw (a, b)
ready-seq_group bash _ store e = refl
ready-seq_group zsh _ store e = refl

-- What the loop keeps of a sequence that leaves its last character: at the prompt it is at its start
-- where the segment is empty, and while a match is in progress it is enabled or at its start.
abbrev pub starts : SeqName → Seer → Bool
starts q s = not (is_at_prompt s.conn.pl) || (not (s.conn.seglen == 0) || (s.store q).pos == 0)

abbrev pub lives : SeqName → Seer → Bool
lives q s =
    not (is_at_prompt s.conn.pl) || (not (is_in_progress s.conn.status) || is_live (s.store q))

abbrev pub keeps : SeqName → Seer → Bool
keeps q s = starts q s && lives q s

pub record IsSteady (s : Seer) : Type 0 where
  pub wrapped : keeps cmd_wrapped s ≡ true
  pub returned : keeps carriage_return s ≡ true

-- One round comes nearer to the end of the content, or makes the segment longer.
abbrev pub Advances : Connection → Connection → Type 0
Advances a b =
    (ahead b < ahead a) × (b.seglen ≡ 0) ⊎ (ahead b ≡ ahead a) × (b.seglen ≡ a.seglen + 1)

pub is_at_prompt_eq : (l : ProcessLevel) → is_at_prompt l ≡ true → l ≡ at_prompt
is_at_prompt_eq at_prompt e = refl
is_at_prompt_eq _ e = cc

pub at_start_keeps : (q : SeqName) (s : Seer) → ((s.store q).pos == 0) ≡ true → keeps q s ≡ true
at_start_keeps q s z = ground arith

pub elsewhere_keeps : (q : SeqName) (s : Seer) → is_at_prompt s.conn.pl ≡ false → keeps q s ≡ true
elsewhere_keeps q s n = rw n

pub longer_keeps :
    (q : SeqName) (s : Seer) (n : ℕ)
    → s.conn.seglen ≡ n + 1
    → is_live (s.store q) ≡ true
    → keeps q s ≡ true
longer_keeps q s n e l = ground arith

-- A reaction clears the group of the level that it leads to.
pub cleared_keeps :
    (shell : ShellType) (q : SeqName) (s : Seer)
    → has q (seq_group shell at_prompt) ≡ true
    → keeps q (clear_seqs shell s.conn.pl s) ≡ true
unfolding clear_seqs
cleared_keeps shell q s h = elim (Bool-cases (is_at_prompt s.conn.pl)) [
  | inr n ↦
      elsewhere_keeps q (record s { store = each zero_pos (seq_group shell s.conn.pl) s.store }) n
  | inl y ↦
      at_start_keeps q (record s { store = each zero_pos (seq_group shell s.conn.pl) s.store })
        (each-has zero_pos (λ st. st.pos == 0) (λ st. refl) q (seq_group shell s.conn.pl) s.store
          (inl
            (subst (λ l. has q (seq_group shell l) ≡ true) (sym (is_at_prompt_eq s.conn.pl y)) h)))
]
  where
    zero_pos : SeqState → SeqState
    zero_pos st = record st { pos = 0 }

-- The state with which a round calls `check_seqs`.
abbrev pub primed : ShellType → Seer → Seer
primed shell t = if is_in_progress t.conn.status then t else enable_all_seqs shell t.conn.pl t

module _ (shell : ShellType) (q : SeqName)
    (own : (r : SeqName) → (address r == address q) ≡ true → r ≡ q)
    (member : has q (seq_group shell at_prompt) ≡ true) (s : Seer) where
  pub primed_pos : ((primed shell s).store q).pos ≡ (s.store q).pos
  unfolding enable_all_seqs
  primed_pos =
      if-cases (λ (t : Seer). (t.store q).pos ≡ (s.store q).pos) (is_in_progress s.conn.status)
        (λ e. refl)
        (λ e.
          each_pos (λ st. record st { enabled = true }) (λ st. refl) q own
            (seq_group shell s.conn.pl) s.store)

  pub primed_live :
      is_at_prompt s.conn.pl ≡ true → keeps q s ≡ true → is_live ((primed shell s).store q) ≡ true
  unfolding enable_all_seqs
  primed_live y k =
      if-cases (λ (t : Seer). is_live (t.store q) ≡ true) (is_in_progress s.conn.status)
        (λ e. ground arith)
        (λ e.
          each-has (λ st. record st { enabled = true }) is_live (λ st. refl) q
            (seq_group shell s.conn.pl) s.store
            (inl (
              subst (λ l. has q (seq_group shell l) ≡ true) (sym (is_at_prompt_eq s.conn.pl y))
                member)))

pub primed_conn : (shell : ShellType) (s : Seer) → (primed shell s).conn ≡ s.conn
unfolding enable_all_seqs
primed_conn shell s =
    if-cases (λ (t : Seer). t.conn ≡ s.conn) (is_in_progress s.conn.status) (λ e. refl) (λ e. refl)
