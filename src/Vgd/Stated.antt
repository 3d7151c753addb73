-- ===== src/Vgd/Stated.antt =====
-- vgd/vgd.c: while every `put_param` to the display succeeds, a status that a client sends keeps the
-- display showing the current client.
use mathlib.Core.Path.{subst}
use viewglob.Base.{
  ℕ, ◌≡◌, refl, sym, ap, true, false, not, ◌&&◌, List, [], ◌∷◌, Option, none, some, Bytes, if-cases,
}
use viewglob.Connection.{ShellStatus}
use viewglob.Shell.{all_statuses, find_status, string_to_shell_status, shell_status_to_string}
use viewglob.ParamIo.{p_status, streq}
use viewglob.ParamIo.Equal.{streq_equal}
use viewglob.Vgd.{Client, Vgd, World, Outcome, and_then, is_empty, find_client}
use viewglob.Vgd.Drop.{forget_client, drop_client}
use viewglob.Vgd.Serve.{is_error, same_status, store_status, take_status}
use viewglob.Vgd.Dropped.{forget_client-gone}
use viewglob.Vgd.Shown.{IsShown, Leaves, goes_on, ended, broken, assigned}
use viewglob.Vgd.Screen.{view}

named :
    (s : Bytes) (qs : List ShellStatus)
    → is_error (find_status s qs) ≡ false
    → s ≡ shell_status_to_string (find_status s qs)
unfolding find_status
named s [] h = cc h
named s (q ∷ qs) h =
    if-cases (λ st. is_error st ≡ false → s ≡ shell_status_to_string st)
      (streq s (shell_status_to_string q)) (λ y _. streq_equal s (shell_status_to_string q) y)
      (λ _ k. named s qs k) h

-- A status that is not an error is named by the string that it was read from.
status_name :
    (s : Bytes)
    → is_error (string_to_shell_status s) ≡ false
    → s ≡ shell_status_to_string (string_to_shell_status s)
unfolding string_to_shell_status
status_name s h = named s all_statuses h

module _ (w : World) (all_put : (n : ℕ) → w.put_display_ok n ≡ true) where
  store_status-IsShown :
      (o : Option Client) (value : Bytes) (s : Vgd)
      → is_error (string_to_shell_status value) ≡ false
      → IsShown w s
      → Leaves w (store_status w o (string_to_shell_status value) value s)
  unfolding store_status
  store_status-IsShown none value s n g = broken
  store_status-IsShown (some v) value s n g =
      let st = string_to_shell_status value in
      if-cases (Leaves w) (same_status st v.status) (λ _. goes_on g)
        (λ _. goes_on (
          assigned w all_put v.address (λ c. record c { status = st }) (p_status, value) s
            (λ c. refl)
            (λ c. ap (λ (x : Bytes). record (view w c) { status = x }) (status_name value n)) g))

  pub take_status-IsShown :
      (v : Client) (value : Bytes) (s : Vgd) → IsShown w s → Leaves w (take_status w v value s)
  unfolding take_status drop_client store_status
  take_status-IsShown v value s g =
      let st = string_to_shell_status value in
      let t = forget_client w v.address s in
      let store = (λ (u : Vgd). store_status w (find_client v.address u.clients) st value u) in
      if-cases (Leaves w) (is_error st)
        (λ _.
          if-cases (λ (o : Outcome). Leaves w (and_then o store))
            (not t.persistent && is_empty t.clients) (λ _. ended 0 _)
            (λ _.
              subst (λ o. Leaves w (store_status w o st value t))
                (sym (forget_client-gone w v.address s g.distinct)) broken))
        (λ n. store_status-IsShown (find_client v.address s.clients) value s n g)
