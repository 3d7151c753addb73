-- ===== src/Vgd/Drop.antt =====
-- vgd/vgd.c: `drop_client` and `die`.
use viewglob.Base.{ℕ, not, ◌&&◌, List, [], ◌∷◌, none, some, codes, ◌==◌, if◌then◌else◌}
use viewglob.ParamIo.{p_status}
use viewglob.Vgd.{
  Client, Vgd, World, Outcome, running, exited, and_then, is_empty, is_running, points_to,
  put_client, context_switch,
}

abbrev pub remove : ℕ → List Client → List Client
remove a [] = []
remove a (v ∷ vs) = if v.address == a then vs else v ∷ remove a vs

-- The display is killed if all the clients are gone.
abbrev pub without_audience : Vgd → Vgd
without_audience s = if is_running s && is_empty s.clients then record s { display = none } else s

module _ (w : World) where
  -- Another client becomes the current one, if there is one.
  abbrev pub switch_to_first : List Client → Vgd → Vgd
  switch_to_first [] s = record s { current = none }
  switch_to_first (v ∷ vs) s = context_switch w v (record s { current = some v.address })

  -- All of `drop_client` but its last condition.
  unfoldable pub forget_client : ℕ → Vgd → Vgd
  unfolding context_switch
  forget_client a s =
      let t = without_audience (record s { clients = remove a s.clients }) in
      if points_to t.current a then switch_to_first t.clients t else t

  -- `die` where no client is left, as `drop_client` calls it.
  abbrev die_alone : Vgd → Outcome
  die_alone s = exited 0 (record s { display = none })

  unfoldable pub drop_client : ℕ → Vgd → Outcome
  unfolding forget_client
  drop_client a s =
      let t = forget_client a s in
      if not t.persistent && is_empty t.clients then die_alone t else running t

  -- The loop of `die`. Each round drops the first of the clients that are left.
  unfoldable pub drop_all : List Client → Vgd → Outcome
  unfolding put_client drop_client
  drop_all [] s = running s
  drop_all (v ∷ vs) s =
      and_then (drop_client v.address (put_client w v.fd (p_status, codes "dead") s).0)
        (drop_all vs)

  unfoldable pub die : ℕ → Vgd → Outcome
  unfolding drop_all
  die code s = and_then (drop_all s.clients s) (λ t. exited code (record t { display = none }))
