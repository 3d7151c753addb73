-- ===== src/Vgd/Screen.antt =====
-- vgd/vgd.c: what the display shows, as a function of the messages that it was sent, and what it
-- should show of a client.
use mathlib.Core.Path.{subst}
use viewglob.Base.{
  ℕ, ◌+◌, ◌≡◌, refl, sym, ap, ◌∙◌, Bool, true, false, ◌&&◌, List, [], ◌∷◌, Option, none, some,
  Bytes, codes, ◌==◌, if◌then◌else◌, if-cases,
}
use viewglob.Shell.{shell_status_to_string}
use viewglob.ParamIo.{p_status, p_cmd, p_developing_mask, p_mask, p_win_id, p_vgexpand_data}
use viewglob.Vgd.{
  Message, Client, Vgd, World, is_some, is_running, points_to, find_client, change_client,
  current_client, receive, put_display, put_all_display, state_of, context_switch, update_display,
}
use viewglob.Vgd.Lists.{find_client-change_client}

-- The last values that the display was sent.
pub record Screen : Type 0 where
  pub status : Bytes
  pub cmd : Bytes
  pub developing_mask : Bytes
  pub mask : Bytes
  pub win : Bytes
  pub expanded : Bytes

abbrev pub tell : Message → Screen → Screen
tell (p_status, v) x = record x { status = v }
tell (p_cmd, v) x = record x { cmd = v }
tell (p_developing_mask, v) x = record x { developing_mask = v }
tell (p_mask, v) x = record x { mask = v }
tell (p_win_id, v) x = record x { win = v }
tell (p_vgexpand_data, v) x = record x { expanded = v }
tell (_, v) x = x

-- A display that was sent nothing shows a client that was just created.
abbrev first_screen : Screen
first_screen = record {
  status = codes "lost";
  cmd = [];
  developing_mask = [];
  mask = [];
  win = [];
  expanded = [];
}

abbrev pub screen_of : List Message → Screen
screen_of [] = first_screen
screen_of (m ∷ ms) = tell m (screen_of ms)

abbrev pub view : World → Client → Screen
view w v = record {
  status = shell_status_to_string v.status;
  cmd = v.cli;
  developing_mask = v.developing_mask;
  mask = v.mask;
  win = w.win_to_str v.win;
  expanded = v.expanded;
}

-- A display that runs shows the client.
abbrev pub Shows : World → Option (List Message) → Option Client → Type 0
Shows w none o = Unit {0}
Shows w (some ms) none = Unit {0}
Shows w (some ms) (some v) = screen_of ms ≡ view w v

abbrev pub InSync : World → Vgd → Type 0
InSync w s = Shows w s.display (current_client s)

abbrev pub changed : (Client → Client) → Option Client → Option Client
changed f none = none
changed f (some c) = some (f c)

-- The current client under a change of a client.
pub current_client-change_client :
    (a : ℕ) (f : Client → Client)
    → ((c : Client) → (f c).address ≡ c.address)
    → (s : Vgd)
    → current_client (record s { clients = change_client a f s.clients })
      ≡ (if points_to s.current a then changed f (current_client s) else current_client s)
current_client-change_client a f k s = by_current s.current
  where
    as_changed : (o : Option Client) → elim o [ none ↦ none | some c ↦ some (f c) ] ≡ changed f o
    as_changed none = refl
    as_changed (some c) = refl

    by_current :
        (cur : Option ℕ)
        → elim cur [ none ↦ none | some b ↦ find_client b (change_client a f s.clients) ] ≡ (
            if points_to cur a
            then changed f (elim cur [ none ↦ none | some b ↦ find_client b s.clients ])
            else elim cur [ none ↦ none | some b ↦ find_client b s.clients ])
    by_current none = refl
    by_current (some b) =
        find_client-change_client a f k b s.clients
        ∙ ap (λ (o : Option Client). if b == a then o else find_client b s.clients)
            (as_changed (find_client b s.clients))

receive_all : List Message → Option (List Message) → Option (List Message)
receive_all [] d = d
receive_all (m ∷ ms) d = receive_all ms (receive m d)

-- In a world in which every `put_param` succeeds.
module _ (w : World) (all_put : (n : ℕ) → w.put_display_ok n ≡ true) where
  pub put_display_lem :
      (m : Message) (s : Vgd)
      → put_display w m s ≡ (record s { display = receive m s.display; calls = s.calls + 1 }, true)
  unfolding put_display
  put_display_lem m s =
      if-cases
        (λ (r : Vgd × Bool).
          r ≡ (record s { display = receive m s.display; calls = s.calls + 1 }, true))
        (w.put_display_ok s.calls) (λ _. refl) (λ n. cc (n, all_put s.calls))

  put_all_display-display :
      (ms : List Message) (s : Vgd) → (put_all_display w ms s).display ≡ receive_all ms s.display
  unfolding put_all_display receive_all
  put_all_display-display [] s = refl
  put_all_display-display (m ∷ ms) s =
      if-cases (λ (t : Vgd). t.display ≡ receive_all (m ∷ ms) s.display) (put_display w m s).1
        (λ _.
          put_all_display-display ms (put_display w m s).0
          ∙ ap (λ (r : Vgd × Bool). receive_all ms r.0.display) (put_display_lem m s))
        (λ n. cc (n, ap (λ (r : Vgd × Bool). r.1) (put_display_lem m s)))

  told_all :
      (v : Client) (d : Option (List Message)) → Shows w (receive_all (state_of w v) d) (some v)
  unfolding receive_all shell_status_to_string
  told_all v none = tt
  told_all v (some ms) = refl

  pub context_switch-Shows :
      (v : Client) (s : Vgd) → Shows w (context_switch w v s).display (some v)
  unfolding context_switch
  context_switch-Shows v s =
      if-cases (λ (t : Vgd). Shows w t.display (some v)) (is_running s)
        (λ _.
          subst (λ d. Shows w d (some v)) (sym (put_all_display-display (state_of w v) s))
            (told_all v s.display))
        (λ n. idle s.display n)
    where
      idle : (d : Option (List Message)) → is_some d ≡ false → Shows w d (some v)
      idle none n = tt
      idle (some ms) n = cc n

  told :
      (m : Message) (f : Client → Client) (d : Option (List Message)) (o : Option Client)
      → ((v : Client) → o ≡ some v → tell m (view w v) ≡ view w (f v))
      → Shows w d o
      → Shows w (receive m d) (changed f o)
  told m f none o h r = tt
  told m f (some ms) none h r = tt
  told m f (some ms) (some v) h r = ap (tell m) r ∙ h v refl

  -- An update of the display, by the change of the client that it tells of.
  pub update_display-Shows :
      (a : ℕ) (m : Message) (f : Client → Client) (t : Vgd) (o : Option Client)
      → ((v : Client) → o ≡ some v → tell m (view w v) ≡ view w (f v))
      → Shows w t.display o
      → Shows w (update_display w a m t).display (if points_to t.current a then changed f o else o)
  unfolding update_display
  update_display-Shows a m f t o h r = by_case (points_to t.current a)
    where
      received : Shows w (put_display w m t).0.display (changed f o)
      received =
          subst (λ (u : Vgd × Bool). Shows w u.0.display (changed f o)) (sym (put_display_lem m t))
            (told m f t.display o h r)

      silent : (d : Option (List Message)) → is_some d ≡ false → Shows w d (changed f o)
      silent none n = tt
      silent (some ms) n = cc n

      by_case :
          (b : Bool)
          → Shows w
              (if b && is_running t then (put_display w m t).0 else t).display
              (if b then changed f o else o)
      by_case false = r
      by_case true =
          if-cases (λ (u : Vgd). Shows w u.display (changed f o)) (is_running t) (λ _. received)
            (λ n. silent t.display n)
