-- ===== src/Vgd/Arrive.antt =====
-- vgd/vgd.c: `new_client`, `new_ping_client` and `new_vgseer_client`.
use viewglob.Base.{
  ℕ, ◌+◌, Bool, true, false, List, [], ◌∷◌, ◌++◌, Option, none, some, Bytes, codes, if◌then◌else◌,
}
use viewglob.ParamIo.{
  p_purpose, p_version, p_term_title, p_status, p_reason, p_order, p_vgexpand_opts, p_win_id, streq,
}
use viewglob.Vgd.{
  Message, Client, vgseer_client_init, Vgd, World, Outcome, running, is_empty, is_running,
  put_client, update_display,
}
use viewglob.Vgd.Drop.{die}

-- A connection that was accepted: its descriptor, what each `get_param` on it gives (`none` is
-- FALSE), the window that its title leads to, and the address that `g_new` gives for the client.
pub record Arrival : Type 0 where
  pub address : ℕ
  pub fd : ℕ
  pub purpose : Option Message
  pub version : Option Message
  pub title : Option Message
  pub title_set : Option Message
  pub xid : ℕ

-- The tests of what `get_param` gave.
abbrev pub as_purpose : Option Message → Option Bytes
as_purpose (some (p_purpose, v)) = some v
as_purpose _ = none

abbrev pub as_version : Option Message → Option Bytes
as_version (some (p_version, v)) = some v
as_version _ = none

abbrev pub as_title : Option Message → Option Bytes
as_title (some (p_term_title, v)) = some v
as_title _ = none

abbrev pub as_status : Option Message → Option Bytes
as_status (some (p_status, v)) = some v
as_status _ = none

abbrev pub says : Bytes → Option Bytes → Bool
says t none = false
says t (some s) = streq s t

abbrev pub client_of : Arrival → Client
client_of a = record (vgseer_client_init a.address) { fd = a.fd; win = a.xid }

-- An only client is the current one.
abbrev pub with_client : Arrival → Vgd → Vgd
with_client a s = record s {
  current = if is_empty s.clients then some a.address else s.current;
  clients = client_of a ∷ s.clients;
}

module _ (w : World) where
  -- Several `put_param`, up to the first that fails.
  unfoldable pub put_all_client : ℕ → List Message → Vgd → Vgd × Bool
  unfolding put_client
  put_all_client fd [] s = (s, true)
  put_all_client fd (m ∷ ms) s =
      let (t, ok) = put_client w fd m s in
      let rest = put_all_client fd ms t in if ok then rest else (t, false)

  -- The answer to a version.
  abbrev pub greeting : Bytes → List Message
  greeting v =
      if streq w.version v
      then (p_status, codes "OK") ∷ []
      else (p_status, codes "WARNING")
        ∷ (p_reason, codes "vgd is v" ++ (w.version ++ (codes ", vgseer is v" ++ v)))
        ∷ []

  -- The exchange with the client, and whether it was accepted. The title is not sent on.
  unfoldable pub exchange_status : Arrival → Vgd → Vgd × Bool
  unfolding put_all_client
  exchange_status a s =
      if says (codes "title-set") (as_status a.title_set)
      then put_all_client a.fd ((p_vgexpand_opts, s.vgexpand_opts) ∷ []) s
      else (s, false)

  unfoldable pub exchange_title : Option Bytes → Arrival → Vgd → Vgd × Bool
  unfolding put_all_client exchange_status
  exchange_title none a s = (s, false)
  exchange_title (some title) a s =
      let (t, ok) = put_all_client a.fd ((p_order, codes "set-title") ∷ []) s in
      if ok then exchange_status a t else (t, false)

  unfoldable pub exchange_version : Option Bytes → Arrival → Vgd → Vgd × Bool
  unfolding put_all_client exchange_title
  exchange_version none a s = (s, false)
  exchange_version (some v) a s =
      let (t, ok) = put_all_client a.fd (greeting v) s in
      if ok then exchange_title (as_title a.title) a t else (t, false)

  abbrev pub exchange : Arrival → Vgd → Vgd × Bool
  exchange a s = exchange_version (as_version a.version) a s

  -- The display is started if it is not around, and is told the window if the client is current.
  unfoldable pub with_display : Arrival → Vgd → Outcome
  unfolding die update_display
  with_display a s =
      if is_running s
      then running s
      else if w.fork_ok s.calls
      then running (
          update_display w a.address (p_win_id, w.win_to_str a.xid)
            (record s { display = some []; calls = s.calls + 1 }))
      else die w 1 (record s { calls = s.calls + 1 })

  unfoldable pub new_vgseer_client : Arrival → Vgd → Outcome
  unfolding exchange_version with_display
  new_vgseer_client a s =
      let (t, ok) = exchange a s in if ok then with_display a (with_client a t) else running t

  -- By the purpose that the client gives.
  unfoldable pub new_client_for : Option Bytes → Arrival → Vgd → Outcome
  unfolding put_client new_vgseer_client
  new_client_for none a s = running s
  new_client_for (some v) a s =
      if streq v (codes "vgping")
      then running (put_client w a.fd (p_status, codes "yo") s).0
      else if streq v (codes "vgseer")
      then new_vgseer_client a s
      else running s

  abbrev pub new_client : Arrival → Vgd → Outcome
  new_client a s = new_client_for (as_purpose a.purpose) a s
