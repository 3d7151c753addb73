-- ===== src/Vgd/Sends.antt =====
-- vgd/vgd.c: when the daemon's state is consistent, and that what only sends keeps it so.
use viewglob.Base.{
  ℕ, ◌≡◌, refl, ◌∙◌, Bool, true, false, ◌&&◌, List, [], ◌∷◌, Option, none, some, if-cases,
}
use viewglob.Vgd.{
  Message, Client, Vgd, World, Outcome, running, exited, and_then, is_some, is_empty, is_running,
  points_to, find_client, receive, put_display, put_client, put_all_display, state_of,
  context_switch, update_display,
}
use viewglob.Vgd.Arrive.{put_all_client}

-- The current client is in the list, and there is none only if the list is empty.
abbrev pub is_there : Option ℕ → List Client → Bool
is_there none cs = is_empty cs
is_there (some a) cs = is_some (find_client a cs)

pub record IsConsistent (s : Vgd) : Type 0 where
  pub current_there : is_there s.current s.clients ≡ true
  pub attended : (is_running s && is_empty s.clients) ≡ false

-- The daemon goes on consistently, or has exited; it has not used a client that is not there.
pub data IsSafe : Outcome → Type 0 where
  goes_on : {s : Vgd} → IsConsistent s → IsSafe (running s)
  exits : (n : ℕ) (s : Vgd) → IsSafe (exited n s)

pub and_then-IsSafe :
    {o : Outcome} (f : Vgd → Outcome)
    → ((s : Vgd) → IsConsistent s → IsSafe (f s))
    → IsSafe o
    → IsSafe (and_then o f)
and_then-IsSafe f h (goes_on c) = h _ c
and_then-IsSafe f h (exits n s) = exits n s

-- What a call that only sends leaves alone.
pub record Keeps (s t : Vgd) : Type 0 where
  pub clients_eq : t.clients ≡ s.clients
  pub current_eq : t.current ≡ s.current
  pub running_eq : is_running t ≡ is_running s
  pub persistent_eq : t.persistent ≡ s.persistent

pub Keeps-self : (s : Vgd) → Keeps s s
Keeps-self s = record {
  clients_eq = refl;
  current_eq = refl;
  running_eq = refl;
  persistent_eq = refl;
}

pub Keeps-trans : {s t u : Vgd} → Keeps s t → Keeps t u → Keeps s u
Keeps-trans h k = record {
  clients_eq = k.clients_eq ∙ h.clients_eq;
  current_eq = k.current_eq ∙ h.current_eq;
  running_eq = k.running_eq ∙ h.running_eq;
  persistent_eq = k.persistent_eq ∙ h.persistent_eq;
}

pub Keeps-IsConsistent : {s t : Vgd} → Keeps s t → IsConsistent s → IsConsistent t
Keeps-IsConsistent h c = record {
  current_there = rw (h.current_eq, h.clients_eq) c.current_there;
  attended = rw (h.running_eq, h.clients_eq) c.attended;
}

receive_running : (m : Message) (d : Option (List Message)) → is_some (receive m d) ≡ is_some d
receive_running m none = refl
receive_running m (some ms) = refl

module _ (w : World) where
  pub put_display-Keeps : (m : Message) (s : Vgd) → Keeps s (put_display w m s).0
  unfolding put_display
  put_display-Keeps m s =
      if-cases (λ (r : Vgd × Bool). Keeps s r.0) (w.put_display_ok s.calls)
        (λ _. record {
          clients_eq = refl;
          current_eq = refl;
          running_eq = receive_running m s.display;
          persistent_eq = refl;
        })
        (λ _. record {
          clients_eq = refl;
          current_eq = refl;
          running_eq = refl;
          persistent_eq = refl;
        })

  pub put_client-Keeps : (fd : ℕ) (m : Message) (s : Vgd) → Keeps s (put_client w fd m s).0
  unfolding put_client
  put_client-Keeps fd m s =
      if-cases (λ (r : Vgd × Bool). Keeps s r.0) (w.put_client_ok s.calls)
        (λ _. record {
          clients_eq = refl;
          current_eq = refl;
          running_eq = refl;
          persistent_eq = refl;
        })
        (λ _. record {
          clients_eq = refl;
          current_eq = refl;
          running_eq = refl;
          persistent_eq = refl;
        })

  pub put_all_display-Keeps : (ms : List Message) (s : Vgd) → Keeps s (put_all_display w ms s)
  unfolding put_all_display
  put_all_display-Keeps [] s = Keeps-self s
  put_all_display-Keeps (m ∷ ms) s =
      if-cases (Keeps s) (put_display w m s).1
        (λ _. Keeps-trans (put_display-Keeps m s) (put_all_display-Keeps ms (put_display w m s).0))
        (λ _. put_display-Keeps m s)

  pub context_switch-Keeps : (v : Client) (s : Vgd) → Keeps s (context_switch w v s)
  unfolding context_switch
  context_switch-Keeps v s =
      if-cases (Keeps s) (is_running s) (λ _. put_all_display-Keeps (state_of w v) s)
        (λ _. Keeps-self s)

  pub update_display-Keeps : (a : ℕ) (m : Message) (s : Vgd) → Keeps s (update_display w a m s)
  unfolding update_display
  update_display-Keeps a m s =
      if-cases (Keeps s) (points_to s.current a && is_running s) (λ _. put_display-Keeps m s)
        (λ _. Keeps-self s)

  pub put_all_client-Keeps :
      (fd : ℕ) (ms : List Message) (s : Vgd) → Keeps s (put_all_client w fd ms s).0
  unfolding put_all_client
  put_all_client-Keeps fd [] s = Keeps-self s
  put_all_client-Keeps fd (m ∷ ms) s =
      if-cases (λ (r : Vgd × Bool). Keeps s r.0) (put_client w fd m s).1
        (λ _.
          Keeps-trans (put_client-Keeps fd m s)
            (put_all_client-Keeps fd ms (put_client w fd m s).0))
        (λ _. put_client-Keeps fd m s)
