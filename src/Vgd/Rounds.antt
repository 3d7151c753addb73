-- ===== src/Vgd/Rounds.antt =====
-- vgd/vgd.c: each round of `poll_loop` keeps the daemon's state consistent.
use mathlib.Core.Path.{subst}
use viewglob.Base.{
  ℕ, ◌≡◌, refl, sym, ap, ◌∙◌, Bool, true, List, [], ◌∷◌, Option, none, some, arith, ◌==◌, if-cases,
  Option-cases, inl, inr,
}
use viewglob.ParamIo.{p_win_id}
use viewglob.Vgd.{Message, Client, Vgd, World, is_some, is_empty, is_running, current_client}
use viewglob.Vgd.Arrive.{Arrival, as_purpose}
use viewglob.Vgd.Serve.{}
use viewglob.Vgd.Poll.{
  find_window, find_ready, Ready, focus_other, check_against, accept, hear_display, hear_ready,
  hear_client, look, poll_round, poll_loop,
}
use viewglob.Vgd.Sends.{
  IsConsistent, IsSafe, goes_on, and_then-IsSafe, Keeps-IsConsistent, context_switch-Keeps,
}
use viewglob.Vgd.Lists.{is_member, find_window-member, find_ready-member}
use viewglob.Vgd.Consistent.{new_client-IsSafe}
use viewglob.Vgd.Safety.{
  is_valid, current_there, process_client-IsSafe, process_display-IsSafe, told-IsSafe,
}

module _ (w : World) where
  focus_other-IsConsistent :
      (o : Option Client) (s : Vgd)
      → ((v : Client) → o ≡ some v → is_member v.address s.clients ≡ true)
      → IsConsistent s
      → IsConsistent (focus_other w o s)
  unfolding focus_other
  focus_other-IsConsistent none s h c = record {
    current_there = c.current_there;
    attended = c.attended;
  }
  focus_other-IsConsistent (some v) s h c =
      Keeps-IsConsistent
        (context_switch-Keeps w v (record s { current = some v.address; current_is_active = true }))
        (record { current_there = h v refl; attended = c.attended })

  pub check_against-IsSafe :
      (o : Option Client) (win : ℕ) (s : Vgd)
      → IsConsistent s
      → is_some o ≡ true
      → IsSafe (check_against w o win s)
  unfolding check_against
  check_against-IsSafe none win s c h = cc h
  check_against-IsSafe (some v) win s c h =
      if-cases IsSafe (win == v.win)
        (λ _.
          if-cases IsSafe s.current_is_active (λ _. goes_on c)
            (λ _.
              told-IsSafe w v.address (p_win_id, w.win_to_str v.win)
                (record s { current_is_active = true })
                (record { current_there = c.current_there; attended = c.attended })))
        (λ _. goes_on (
          focus_other-IsConsistent (find_window win s.clients) s
            (λ v e. find_window-member win s.clients v e) c))

  accept-IsSafe : (o : Option Arrival) (s : Vgd) → IsConsistent s → IsSafe (accept w o s)
  accept-IsSafe none s c = goes_on c
  accept-IsSafe (some a) s c = new_client-IsSafe w (as_purpose a.purpose) a s c

  hear_display-IsSafe :
      (o : Option (Option Message)) (s : Vgd) → IsConsistent s → IsSafe (hear_display w o s)
  hear_display-IsSafe none s c = goes_on c
  hear_display-IsSafe (some m) s c =
      if-cases IsSafe (is_running s) (λ r. process_display-IsSafe w m s c r) (λ _. goes_on c)

  look-IsSafe : (win : ℕ) (s : Vgd) → IsConsistent s → IsSafe (look w win s)
  look-IsSafe win s c =
      if-cases IsSafe (is_empty s.clients) (λ _. goes_on c)
        (λ e. check_against-IsSafe (current_client s) win s c (current_there s c e))

-- No client sends an invalid status.
abbrev all_valid : Option (Option Message) → Bool
all_valid none = true
all_valid (some m) = is_valid m

pub record IsValid (r : Ready) : Type 0 where
  pub statuses : (fd : ℕ) → all_valid (r.from_client fd) ≡ true

abbrev pub EachValid : List Ready → Type 0
EachValid [] = Unit {0}
EachValid (r ∷ rs) = IsValid r × EachValid rs

find_ready-valid :
    (ready : ℕ → Option (Option Message))
    → ((fd : ℕ) → all_valid (ready fd) ≡ true)
    → (cs : List Client) (v : Client) (m : Option Message) → find_ready ready cs ≡ some (v, m)
    → is_valid m ≡ true
find_ready-valid ready h [] v m e = absurd (ground arith)
find_ready-valid ready h (c ∷ cs) v m e = elim (Option-cases (ready c.fd)) [
  | inl n ↦ find_ready-valid ready h cs v m (subst picked n e)
  | inr (o, y) ↦
      let k : o ≡ m = cc (subst picked y e) in ap is_valid (sym k) ∙ (ap all_valid (sym y) ∙ h c.fd)
]
  where
    picked : Option (Option Message) → Type 0
    picked o = elim o [ none ↦ find_ready ready cs | some m' ↦ some (c, m') ] ≡ some (v, m)

module _ (w : World) where
  hear_ready-IsSafe :
      (o : Option (Client × Option Message)) (s : Vgd)
      → IsConsistent s
      → ((v : Client) (m : Option Message)
          → o ≡ some (v, m)
          → (is_member v.address s.clients ≡ true) × (is_valid m ≡ true))
      → IsSafe (hear_ready w o s)
  hear_ready-IsSafe none s c h = goes_on c
  hear_ready-IsSafe (some (v, m)) s c h =
      let (here, good) = h v m refl in process_client-IsSafe w v m s c here good

  poll_round-IsSafe : (r : Ready) (s : Vgd) → IsValid r → IsConsistent s → IsSafe (poll_round w r s)
  unfolding poll_round
  poll_round-IsSafe r s good c =
      and_then-IsSafe (look w r.active_window) (look-IsSafe w r.active_window) (
        and_then-IsSafe (hear_client w r.from_client)
          (λ t k. hear_ready-IsSafe (find_ready r.from_client t.clients) t k (λ v m e. (
            find_ready-member r.from_client t.clients v m e,
            find_ready-valid r.from_client good.statuses t.clients v m e,
          )))
          (and_then-IsSafe (hear_display w r.from_display) (hear_display-IsSafe w r.from_display) (
            and_then-IsSafe (accept w r.unix) (accept-IsSafe w r.unix)
              (accept-IsSafe w r.port s c))))

  -- From a consistent state, any number of rounds of `poll_loop` in which no client sends an invalid
  -- status lead to a consistent state or to the exit, and use no client that is not there.
  pub poll_loop-IsSafe :
      (rs : List Ready) (s : Vgd) → EachValid rs → IsConsistent s → IsSafe (poll_loop w rs s)
  unfolding poll_loop
  poll_loop-IsSafe [] s good c = goes_on c
  poll_loop-IsSafe (r ∷ rs) s (g, gs) c =
      and_then-IsSafe (poll_loop w rs) (λ t k. poll_loop-IsSafe rs t gs k)
        (poll_round-IsSafe r s g c)
