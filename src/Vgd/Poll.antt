-- ===== src/Vgd/Poll.antt =====
-- vgd/vgd.c: `check_active_window` and the rounds of `poll_loop`.
use viewglob.Base.{ℕ, true, false, List, [], ◌∷◌, Option, none, some, ◌==◌, if◌then◌else◌}
use viewglob.ParamIo.{p_win_id}
use viewglob.Vgd.{
  Message, Client, Vgd, World, Outcome, running, fault, and_then, is_empty, is_running,
  current_client, context_switch, update_display,
}
use viewglob.Vgd.Arrive.{Arrival, new_client}
use viewglob.Vgd.Serve.{process_client, process_display}

abbrev pub find_window : ℕ → List Client → Option Client
find_window win [] = none
find_window win (v ∷ vs) = if win == v.win then some v else find_window win vs

-- The first client whose descriptor is ready.
abbrev pub find_ready :
    (ℕ → Option (Option Message)) → List Client → Option (Client × Option Message)
find_ready ready [] = none
find_ready ready (v ∷ vs) = elim (ready v.fd) [ none ↦ find_ready ready vs | some m ↦ some (v, m) ]

-- What a round finds: connections to accept on the two sockets, what the display has sent, what
-- there is to read of each client's descriptor, and the window that is active behind it.
pub record Ready : Type 0 where
  pub port : Option Arrival
  pub unix : Option Arrival
  pub from_display : Option (Option Message)
  pub from_client : ℕ → Option (Option Message)
  pub active_window : ℕ

module _ (w : World) where
  -- The current client is not the active window: another client may be.
  unfoldable pub focus_other : Option Client → Vgd → Vgd
  unfolding context_switch
  focus_other none s = record s { current_is_active = false }
  focus_other (some v) s =
      context_switch w v (record s { current = some v.address; current_is_active = true })

  -- By the current client, which the code takes to be there.
  unfoldable pub check_against : Option Client → ℕ → Vgd → Outcome
  unfolding focus_other update_display
  check_against none win s = fault
  check_against (some c) win s =
      if win == c.win
      then (if s.current_is_active
          then running s
          else running (
              update_display w c.address (p_win_id, w.win_to_str c.win)
                (record s { current_is_active = true })))
      else running (focus_other (find_window win s.clients) s)

  abbrev pub check_active_window : ℕ → Vgd → Outcome
  check_active_window win s = check_against (current_client s) win s

  abbrev pub accept : Option Arrival → Vgd → Outcome
  accept none s = running s
  accept (some a) s = new_client w a s

  abbrev pub hear_display : Option (Option Message) → Vgd → Outcome
  hear_display none s = running s
  hear_display (some m) s = if is_running s then process_display w m s else running s

  abbrev pub hear_ready : Option (Client × Option Message) → Vgd → Outcome
  hear_ready none s = running s
  hear_ready (some (v, m)) s = process_client w v m s

  abbrev pub hear_client : (ℕ → Option (Option Message)) → Vgd → Outcome
  hear_client ready s = hear_ready (find_ready ready s.clients) s

  abbrev pub look : ℕ → Vgd → Outcome
  look win s = if is_empty s.clients then running s else check_active_window win s

  -- A round. `nready` counts the descriptors that are set and not dealt with, so that its tests
  -- exclude nothing.
  unfoldable pub poll_round : Ready → Vgd → Outcome
  unfolding process_display process_client check_against
  poll_round r s =
      and_then
        (and_then
          (and_then (and_then (accept r.port s) (accept r.unix)) (hear_display r.from_display))
          (hear_client r.from_client))
        (look r.active_window)

  unfoldable pub poll_loop : List Ready → Vgd → Outcome
  unfolding poll_round
  poll_loop [] s = running s
  poll_loop (r ∷ rs) s = and_then (poll_round r s) (poll_loop rs)
