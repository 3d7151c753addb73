-- ===== src/Vgd.antt =====
-- vgd/vgd.c: the daemon's state, and what it sends to the display. A pointer to a client is its
-- address, a number.
pub mod Drop
pub mod Arrive
pub mod Serve
pub mod Poll
pub mod Sends
pub mod Lists
pub mod Consistent
pub mod Safety
pub mod Rounds
pub mod Screen
pub mod Shown
pub mod Stated
pub mod Told
pub mod Joins
pub mod Reach
pub mod Distinct
pub mod Dropped
pub mod Faults
use viewglob.Base.{
  ℕ, ◌+◌, Bool, true, false, ◌&&◌, List, [], ◌∷◌, Option, none, some, Bytes, codes, ◌==◌,
  if◌then◌else◌,
}
use viewglob.Connection.{ShellStatus, ss_lost}
use viewglob.Shell.{shell_status_to_string}
use viewglob.ParamIo.{
  Parameter, p_status, p_cmd, p_developing_mask, p_mask, p_win_id, p_vgexpand_data,
}

-- A parameter and its value.
abbrev pub Message : Type 0
Message = Parameter × Bytes

-- `struct vgseer_client`
pub record Client : Type 0 where
  pub address : ℕ
  pub win : ℕ
  pub fd : ℕ
  pub status : ShellStatus
  pub cli : Bytes
  pub pwd : Bytes
  pub developing_mask : Bytes
  pub mask : Bytes
  pub expanded : Bytes

-- `vgseer_client_init`, at an address. The descriptor, -1 at first, is 0 here until it is set.
abbrev pub vgseer_client_init : ℕ → Client
vgseer_client_init a = record {
  address = a;
  win = 0;
  fd = 0;
  status = ss_lost;
  cli = [];
  pwd = [];
  developing_mask = [];
  mask = [];
  expanded = [];
}

-- `struct state`. The display is what the running child has received, the newest first, or `none`
-- where no child runs. Beside the program's fields: what was sent to clients, with their
-- descriptors, and how many calls of the system were made.
pub record Vgd : Type 0 where
  pub clients : List Client
  pub current : Option ℕ
  pub current_is_active : Bool
  pub display : Option (List Message)
  pub display_win : ℕ
  pub persistent : Bool
  pub vgexpand_opts : Bytes
  pub sent : List (ℕ × Message)
  pub calls : ℕ

-- What the daemon does not decide: whether its n-th call succeeds, if it is a `put_param` to the
-- display, one to a client or a `child_fork`; the names of windows (sprintf and strtoul); its own version.
pub record World : Type 0 where
  pub put_display_ok : ℕ → Bool
  pub put_client_ok : ℕ → Bool
  pub fork_ok : ℕ → Bool
  pub win_to_str : ℕ → Bytes
  pub strtoul : Bytes → ℕ
  pub ulong_max : ℕ
  pub version : Bytes

-- A daemon goes on, or has exited with a code, or has used a client that is freed or not there.
pub data Outcome : Type 0 where
  running : Vgd → Outcome
  exited : ℕ → Vgd → Outcome
  fault : Outcome

abbrev pub and_then : Outcome → (Vgd → Outcome) → Outcome
and_then (running s) f = f s
and_then (exited n s) f = exited n s
and_then fault f = fault

abbrev pub is_some {ℓ} : {A : Type ℓ} → Option A → Bool
is_some none = false
is_some (some a) = true

abbrev pub is_empty {ℓ} : {A : Type ℓ} → List A → Bool
is_empty [] = true
is_empty (x ∷ xs) = false

-- child_running(&s->display)
abbrev pub is_running : Vgd → Bool
is_running s = is_some s.display

-- `s->current == v`
abbrev pub points_to : Option ℕ → ℕ → Bool
points_to none a = false
points_to (some b) a = b == a

-- The client at an address.
abbrev pub find_client : ℕ → List Client → Option Client
find_client a [] = none
find_client a (v ∷ vs) = if v.address == a then some v else find_client a vs

-- An assignment to a client.
abbrev pub change_client : ℕ → (Client → Client) → List Client → List Client
change_client a f [] = []
change_client a f (v ∷ vs) = if v.address == a then f v ∷ vs else v ∷ change_client a f vs

abbrev pub current_client : Vgd → Option Client
current_client s = elim s.current [ none ↦ none | some a ↦ find_client a s.clients ]

abbrev pub receive : Message → Option (List Message) → Option (List Message)
receive m none = none
receive m (some ms) = some (m ∷ ms)

module _ (w : World) where
  -- A `put_param` to the display, and one to a client.
  unfoldable pub put_display : Message → Vgd → Vgd × Bool
  put_display m s =
      if w.put_display_ok s.calls
      then (record s { display = receive m s.display; calls = s.calls + 1 }, true)
      else (record s { calls = s.calls + 1 }, false)

  unfoldable pub put_client : ℕ → Message → Vgd → Vgd × Bool
  put_client fd m s =
      if w.put_client_ok s.calls
      then (record s { sent = (fd, m) ∷ s.sent; calls = s.calls + 1 }, true)
      else (record s { calls = s.calls + 1 }, false)

  -- Several, up to the first that fails.
  unfoldable pub put_all_display : List Message → Vgd → Vgd
  unfolding put_display
  put_all_display [] s = s
  put_all_display (m ∷ ms) s =
      let (t, ok) = put_display m s in let rest = put_all_display ms t in if ok then rest else t

  abbrev pub state_of : Client → List Message
  state_of v =
      (p_status, shell_status_to_string v.status)
      ∷ (p_cmd, v.cli)
      ∷ (p_developing_mask, v.developing_mask)
      ∷ (p_mask, v.mask)
      ∷ (p_win_id, w.win_to_str v.win)
      ∷ (p_vgexpand_data, v.expanded)
      ∷ []

  unfoldable pub context_switch : Client → Vgd → Vgd
  unfolding put_all_display shell_status_to_string
  context_switch v s = if is_running s then put_all_display (state_of v) s else s

  unfoldable pub update_display : ℕ → Message → Vgd → Vgd
  unfolding put_display
  update_display a m s = if points_to s.current a && is_running s then (put_display m s).0 else s
