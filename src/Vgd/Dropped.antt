-- ===== src/Vgd/Dropped.antt =====
-- vgd/vgd.c: a client that is dropped is not among the clients any more.
use viewglob.Base.{
  ℕ, ◌≡◌, refl, ap, ◌∙◌, true, false, not, List, [], ◌∷◌, none, arith, ◌==◌, Bool-cases,
  Option-cases, inl, inr, sym,
}
use viewglob.Vgd.{Client, Vgd, World, is_some, find_client}
use viewglob.Vgd.Drop.{remove, forget_client}
use viewglob.Vgd.Lists.{is_member}
use viewglob.Vgd.Distinct.{are_distinct}
use viewglob.Vgd.Consistent.{forget_client-clients}

absent : (a : ℕ) (cs : List Client) → is_member a cs ≡ false → find_client a cs ≡ none
absent a cs h = elim (Option-cases (find_client a cs)) [
  | inl n ↦ n
  | inr (v, y) ↦ cc (h, ap is_some y)
]

find_client-removed :
    (a : ℕ) (cs : List Client) → are_distinct cs ≡ true → find_client a (remove a cs) ≡ none
find_client-removed a [] h = refl
find_client-removed a (c ∷ cs) h = elim (Bool-cases (c.address == a)) [
  | inl y ↦
      let e : c.address ≡ a = ground arith in
      let gone : not (is_member c.address cs) ≡ true = ground arith in
      rw y (absent a cs (sym (ap (λ b. is_member b cs) e) ∙ ground (arith, gone)))
  | inr n ↦ rw (n, n) (find_client-removed a cs (ground arith))
]

pub forget_client-gone :
    (w : World) (a : ℕ) (s : Vgd)
    → are_distinct s.clients ≡ true
    → find_client a (forget_client w a s).clients ≡ none
forget_client-gone w a s d =
    ap (find_client a) (forget_client-clients w a s) ∙ find_client-removed a s.clients d
