-- ===== src/Repository/Alike.antt =====
-- Rows of `trades` that are known to be there, and what a test says of them.
use outbound_api.Prelude.{
  ℕ, ◌≡◌, refl, sym, ap, ◌∙◌, Bool, false, some, none, List, [], ◌∷◌, ◌++◌, ◌==◌, ==_iff,
  Bool-cases, inl, inr, filter, All,
}
use outbound_api.Prelude.Table.{
  has_key, lookup, update, Unique, lookup-update, lookup-eq-none, lookup-append,
}
use outbound_api.Model.{Trade}
use outbound_api.Repository.Store.{Env}
use outbound_api.Repository.Trades.{overwrite}

abbrev pub trade_id : {D : Type 0} → Trade D → ℕ
trade_id t = t.id

module _ {D : Type 0} (test : Trade D → Bool) where
  -- The table has a row at the trade's key that passes the test if the trade does.
  abbrev pub Alike : List (Trade D) → Trade D → Type 0
  Alike ts t = (r : Trade D) × (lookup trade_id t.id ts ≡ some r) × (test r ≡ test t)

  Alike-cons :
      (x t : Trade D) (ts : List (Trade D))
      → has_key trade_id x.id ts ≡ false
      → Alike ts t
      → Alike (x ∷ ts) t
  Alike-cons x t ts fresh (r, e, same) = elim (Bool-cases (x.id == t.id)) [
    | inl here ↦ absurd (
        let gone : lookup trade_id t.id ts ≡ none =
          rw (← (==_iff x.id t.id).0 here) (lookup-eq-none trade_id x.id ts fresh) in
        cc)
    | inr there ↦ (r, rw there e, same)
  ]

  All-Alike-cons :
      (x : Trade D) (ts l : List (Trade D))
      → has_key trade_id x.id ts ≡ false
      → All (Alike ts) l
      → All (Alike (x ∷ ts)) l
  All-Alike-cons x ts [] fresh h = tt
  All-Alike-cons x ts (t ∷ l) fresh h =
      (Alike-cons x t ts fresh h.0, All-Alike-cons x ts l fresh h.1)

  -- What a SELECT finds are rows of the table.
  pub filter-Alike :
      (p : Trade D → Bool) (ts : List (Trade D)) → Unique trade_id ts → All (Alike ts) (filter p ts)
  filter-Alike p [] u = tt
  filter-Alike p (x ∷ ts) u =
      let rest = All-Alike-cons x ts (filter p ts) u.0 (filter-Alike p ts u.1) in
      elim (Bool-cases (p x)) [
        | inl hit ↦ rw hit ((x, rw ((==_iff x.id x.id).1 refl) refl, refl), rest)
        | inr miss ↦ rw miss rest
      ]

  pub append-Alike :
      (x : Trade D) (ts l : List (Trade D))
      → has_key trade_id x.id ts ≡ false
      → All (Alike ts) l
      → All (Alike (ts ++ (x ∷ []))) l
  append-Alike x ts [] fresh h = tt
  append-Alike x ts (t ∷ l) fresh h =
      let (r, e, same) = h.0 in
      let at = lookup-append trade_id t.id ts x fresh in
      (
        elim (Bool-cases (x.id == t.id)) [
          | inl clash ↦
              let absent = lookup-eq-none trade_id x.id ts fresh in
              let key : x.id ≡ t.id = (==_iff x.id t.id).0 clash in
              let gone : lookup trade_id t.id ts ≡ none = rw (← key) absent in cc
          | inr other ↦ (r, at ∙ rw other e, same)
        ],
        append-Alike x ts l fresh h.1,
      )

  module _ (env : Env D) (written : (new r : Trade D) → test (overwrite env new r) ≡ test new) where
    -- A row written with the key and the answer of a row of the table.
    Alike-update :
        (t u new : Trade D) (ts : List (Trade D))
        → new.id ≡ t.id
        → test new ≡ test t
        → Alike ts t
        → Alike ts u
        → Alike (update trade_id new.id (overwrite env new) ts) u
    Alike-update t u new ts id answer (r, e, same) (r', e', same') =
        let found = lookup-update trade_id new.id (overwrite env new) (λ x. refl) u.id ts r' e' in
        elim (Bool-cases (new.id == u.id)) [
          | inl here ↦
              let one_key : t.id ≡ u.id = sym id ∙ (==_iff new.id u.id).0 here in
              let one_row : some r ≡ some r' =
                sym e ∙ ap (λ k. lookup trade_id k ts) one_key ∙ e' in
              let rows : r ≡ r' = cc in
              (
                overwrite env new r',
                rw here at found,
                written new r' ∙ answer ∙ sym same ∙ ap (test) rows ∙ same',
              )
          | inr there ↦ (r', rw there at found, same')
        ]

    pub All-Alike-update :
        (t new : Trade D) (ts l : List (Trade D))
        → new.id ≡ t.id
        → test new ≡ test t
        → Alike ts t
        → All (Alike ts) l
        → All (Alike (update trade_id new.id (overwrite env new) ts)) l
    All-Alike-update t new ts [] id answer h hs = tt
    All-Alike-update t new ts (u ∷ l) id answer h hs =
        (Alike-update t u new ts id answer h hs.0, All-Alike-update t new ts l id answer h hs.1)
