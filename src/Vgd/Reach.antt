-- ===== src/Vgd/Reach.antt =====
-- vgd/vgd.c: the states that the daemon reaches, from `state_init` on.
use mathlib.Core.Path.{subst}
use viewglob.Base.{
  ℕ, ◌≡◌, refl, ap, Bool, true, false, ◌||◌, List, [], Option, none, some, Bytes, Option-cases, inl,
  inr,
}
use viewglob.ParamIo.{}
use viewglob.Vgd.{
  Message, Client, Vgd, World, Outcome, running, is_some, is_empty, is_running, current_client,
}
use viewglob.Vgd.Arrive.{Arrival, as_purpose, new_client}
use viewglob.Vgd.Serve.{process_client, process_display}
use viewglob.Vgd.Poll.{check_active_window}
use viewglob.Vgd.Lists.{is_member, find_ready-member}
use viewglob.Vgd.Distinct.{find_client-In, find_ready-In}
use viewglob.Vgd.Shown.{IsShown, Leaves, goes_on, ended, broken}
use viewglob.Vgd.Screen.{Shows, view, screen_of}
use viewglob.Vgd.Told.{process_client-IsShown, process_display-IsShown, check_against-IsShown}
use viewglob.Vgd.Sends.{IsConsistent, IsSafe}
use viewglob.Vgd.Consistent.{new_client-IsSafe}
use viewglob.Vgd.Safety.{is_valid, attended_nonempty, process_client-IsSafe, process_display-IsSafe}
use viewglob.Vgd.Poll.{find_ready, check_active_window}
use viewglob.Vgd.Joins.{new_client-IsShown}
use viewglob.Vgd.Safety.{current_there}
use viewglob.Vgd.Rounds.{check_against-IsSafe}

-- `state_init`, with what the command line and the configuration set.
abbrev pub state_init : Bool → Bytes → Vgd
state_init persistent opts = record {
  clients = [];
  current = none;
  current_is_active = false;
  display = none;
  display_win = 0;
  persistent = persistent;
  vgexpand_opts = opts;
  sent = [];
  calls = 0;
}

-- The states that lead from the first to others, by a client that joins, one that is heard, the
-- display, and a look at the active window. A client that joins has an address of its own, and does
-- not find other clients without a display (`new_vgseer_client` tells a new display the window of the
-- new client alone), and no read from the display fails (`process_display` tells the display that it
-- starts again nothing).
pub data Reach (w : World) (persistent : Bool) (opts : Bytes) : Vgd → Type 0 where
  start : Reach w persistent opts (state_init persistent opts)
  joins :
      (a : Arrival) {s t : Vgd}
      → Reach w persistent opts s
      → is_member a.address s.clients ≡ false
      → (is_running s || is_empty s.clients) ≡ true
      → new_client w a s ≡ running t
      → Reach w persistent opts t
  speaks :
      (ready : ℕ → Option (Option Message)) (v : Client) (m : Option Message) {s t : Vgd}
      → Reach w persistent opts s
      → find_ready ready s.clients ≡ some (v, m)
      → is_valid m ≡ true
      → process_client w v m s ≡ running t
      → Reach w persistent opts t
  answers :
      (m : Message) {s t : Vgd}
      → Reach w persistent opts s
      → is_running s ≡ true
      → process_display w (some m) s ≡ running t
      → Reach w persistent opts t
  looks :
      (win : ℕ) {s t : Vgd}
      → Reach w persistent opts s
      → is_empty s.clients ≡ false
      → check_active_window w win s ≡ running t
      → Reach w persistent opts t

outcome_state : Vgd → Outcome → Vgd
outcome_state s (running t) = t
outcome_state s _ = s

after_running : (P : Vgd → Type 0) {s t : Vgd} → running s ≡ running t → P s → P t
unfolding outcome_state
after_running P {s} e h = subst P (ap (outcome_state s) e) h

IsShown-after : {w : World} {o : Outcome} {t : Vgd} → Leaves w o → o ≡ running t → IsShown w t
IsShown-after (goes_on g) e = after_running (IsShown _) e g
IsShown-after (ended n s) e = cc e
IsShown-after broken e = cc e

IsConsistent-after : {o : Outcome} {t : Vgd} → IsSafe o → o ≡ running t → IsConsistent t
IsConsistent-after (IsSafe.goes_on c) e = after_running IsConsistent e c
IsConsistent-after (IsSafe.exits n s) e = cc e

module _ (w : World) (all_put : (n : ℕ) → w.put_display_ok n ≡ true) (persistent : Bool)
    (opts : Bytes) where
  reached : {s : Vgd} → Reach w persistent opts s → IsConsistent s × IsShown w s
  reached start =
      (record { current_there = refl; attended = refl }, record { distinct = refl; in_sync = tt })
  reached (joins a {s} r h p e) =
      let (c, g) = reached r in
      (
        IsConsistent-after (new_client-IsSafe w (as_purpose a.purpose) a s c) e,
        IsShown-after (new_client-IsShown w all_put (as_purpose a.purpose) a s c g h p) e,
      )
  reached (speaks ready v m {s} r f h e) =
      let (c, g) = reached r in
      (
        IsConsistent-after
            (process_client-IsSafe w v m s c (find_ready-member ready s.clients v m f) h) e,
        IsShown-after
            (process_client-IsShown w all_put v m s
              (find_client-In (find_ready-In ready s.clients v m f) g.distinct) g)
            e,
      )
  reached (answers m {s} r h e) =
      let (c, g) = reached r in
      (
        IsConsistent-after (process_display-IsSafe w (some m) s c h) e,
        IsShown-after (process_display-IsShown w all_put m s g) e,
      )
  reached (looks win {s} r h e) =
      let (c, g) = reached r in
      (
        IsConsistent-after (check_against-IsSafe w (current_client s) win s c (current_there s c h))
            e,
        IsShown-after (check_against-IsShown w all_put (current_client s) win s refl g) e,
      )

  -- If every `put_param` to the display succeeds, while those to clients may fail, then in each state
  -- that the daemon reaches (from `state_init`, by clients that join with an address of their own and
  -- not to other clients while no display runs, by clients that are heard and send no invalid status
  -- or break the connection, by messages that are read from the display, and by looks at the active
  -- window), a running display has a client to show, the current one, and shows exactly its status,
  -- command, masks, window and listing.
  pub Reach-shows :
      {s : Vgd}
      → Reach w persistent opts s
      → (ms : List Message) → s.display ≡ some ms
      → (v : Client) × (current_client s ≡ some v) × (screen_of ms ≡ view w v)
  Reach-shows {s} r ms e = elim (Option-cases (current_client s)) [
    | inl n ↦
        let (c, g) = reached r in
        cc (ap is_some n, current_there s c (attended_nonempty s c (ap is_some e)))
    | inr (v, y) ↦ (
      v,
      y,
      subst (λ o. Shows w (some ms) o) y
          (subst (λ d. Shows w d (current_client s)) e (reached r).1.in_sync),
    )
  ]
