-- ===== src/Repository/Known.antt =====
-- Rows of `trades` of which a copy is held, and what a test says of them.
use mathlib.Core.Option.{some-injective}
use outbound_api.Prelude.{
  ℕ, ◌≡◌, refl, sym, ap, ◌∙◌, Bool, some, List, [], ◌∷◌, arith, ◌==◌, ==_iff, Bool-cases,
  Option-cases, inl, inr, All,
}
use outbound_api.Prelude.Table.{
  lookup, update, erase, lookup-update, lookup-update-none, lookup-erase,
}
use outbound_api.Model.{Trade}
use outbound_api.Repository.Store.{Env}
use outbound_api.Repository.Trades.{overwrite}
use outbound_api.Repository.Alike.{trade_id, Alike}

module _ {D : Type 0} (test : Trade D → Bool) where
  -- The row at the trade's key, if there is one, passes the test if and only if the trade does.
  abbrev pub RowOf : List (Trade D) → Trade D → Type 0
  RowOf ts t = (r : Trade D) → lookup trade_id t.id ts ≡ some r → test r ≡ test t

  pub RowOf-map :
      (l ts us : List (Trade D))
      → ((t : Trade D) → RowOf ts t → RowOf us t)
      → All (RowOf ts) l
      → All (RowOf us) l
  RowOf-map [] ts us f h = tt
  RowOf-map (t ∷ l) ts us f h = (f t h.0, RowOf-map l ts us f h.1)

  pub RowOf-erase :
      (k : ℕ) (t : Trade D) (ts : List (Trade D)) → RowOf ts t → RowOf (erase trade_id k ts) t
  RowOf-erase k t ts h r e = let at = lookup-erase trade_id t.id k ts in ground (arith, h r)

  pub All-Alike-RowOf : (ts l : List (Trade D)) → All (Alike test ts) l → All (RowOf ts) l
  All-Alike-RowOf ts [] h = tt
  All-Alike-RowOf ts (t ∷ l) h =
      let (r, e, same) = h.0 in
      (λ r' e'. ap test (some-injective r' r (sym e' ∙ e)) ∙ same, All-Alike-RowOf ts l h.1)

  module _ (env : Env D) (kept : (x r : Trade D) → test (overwrite env x r) ≡ test x) where
    -- A row written with the key of a row and what the test reads of it.
    pub RowOf-update :
        (new t : Trade D) (ts : List (Trade D))
        → RowOf ts new
        → RowOf ts t
        → RowOf (update trade_id new.id (overwrite env new) ts) t
    RowOf-update new t ts row h r e = elim (Option-cases (lookup trade_id t.id ts)) [
      | inl absent ↦
          cc (lookup-update-none trade_id new.id (overwrite env new) (λ x. refl) t.id ts absent)
      | inr (old, present) ↦
          let at =
            lookup-update trade_id new.id (overwrite env new) (λ x. refl) t.id ts old present in
          elim (Bool-cases (new.id == t.id)) [
            | inl here ↦
                let key : new.id ≡ t.id = (==_iff new.id t.id).0 here in
                let written : r ≡ overwrite env new old =
                  some-injective r (overwrite env new old) (sym e ∙ rw here at at) in
                ap test written ∙ kept new old ∙ sym (row old (rw key present)) ∙ h old present
            | inr there ↦ ap test (some-injective r old (sym e ∙ rw there at at)) ∙ h old present
          ]
    ]
