-- ===== src/Service/Trade/Exits/Ready.antt =====
-- What the exits need of the tables, when nothing fails: new identifiers are new, and the buys that
-- are to be sold are there, without a sell, and with their transfer.
use outbound_api.Prelude.{
  ℕ, ◌≤◌, ◌≡◌, refl, ◌∙◌, Bool, true, false, ◌&&◌, some, List, [], ◌∷◌, ◌++◌, arith, ==_iff, any,
  any-append, filter, All, is_some_of, Bool-cases, inl, inr,
}
use outbound_api.Prelude.Table.{has_key, Unique, has_key-append}
use outbound_api.Model.{Trade, Signal, AccountTransfer, is_sell}
use outbound_api.Repository.Store.{Env, World}
use outbound_api.Repository.Trades.{has_sell_child, must_refer}
use outbound_api.Repository.Alike.{trade_id}

abbrev pub signal_id : {D : Type 0} → Signal D → ℕ
signal_id s = s.id

-- The database answers, and no identifier is drawn twice.
pub record IsReliable {D : Type 0} (env : Env D) : Type 0 where
  pub answers : (i : ℕ) → env.db_fails i ≡ false
  pub distinct : (i j : ℕ) → env.new_uuid i ≡ env.new_uuid j → i ≡ j

-- The identifiers still to be drawn are in neither table.
pub record IsFresh {D : Type 0} (env : Env D) (w : World D) : Type 0 where
  pub trades : (j : ℕ) → w.tick ≤ j → has_key trade_id (env.new_uuid j) w.trades ≡ false
  pub signals : (j : ℕ) → w.tick ≤ j → has_key signal_id (env.new_uuid j) w.signals ≡ false

-- A sell of the trade would not be refused.
pub record Sellable {D : Type 0} (ts : List (Trade D)) (fs : List (AccountTransfer D)) (t : Trade D)
    : Type 0 where
  pub stored : has_key trade_id t.id ts ≡ true
  pub unsold : has_sell_child ts t.id ≡ false
  pub funded : must_refer (λ r. r.id) fs t.account_transfer_id ≡ true

module _ {A : Type 0} where
  pub All-filter : (P : A → Type 0) (p : A → Bool) (xs : List A) → All P xs → All P (filter p xs)
  All-filter P p [] h = tt
  All-filter P p (x ∷ xs) h = elim (Bool-cases (p x)) [
    | inl passes ↦ rw passes (h.0, All-filter P p xs h.1)
    | inr fails ↦ rw fails (All-filter P p xs h.1)
  ]

  pub filter-passes : (p : A → Bool) (xs : List A) → All (λ x. p x ≡ true) (filter p xs)
  filter-passes p [] = tt
  filter-passes p (x ∷ xs) = elim (Bool-cases (p x)) [
    | inl passes ↦ rw passes (passes, filter-passes p xs)
    | inr fails ↦ rw fails (filter-passes p xs)
  ]

  pub any_never : (p : A → Bool) (xs : List A) → ((x : A) → p x ≡ false) → any p xs ≡ false
  any_never p [] h = refl
  any_never p (x ∷ xs) h = rw (h x) (any_never p xs h)

  -- A test that passes less often, on fewer items.
  pub any-filter :
      (p q f : A → Bool) (xs : List A)
      → ((x : A) → q x ≡ p x)
      → any p xs ≡ false
      → any q (filter f xs) ≡ false
  any-filter p q f [] same h = refl
  any-filter p q f (x ∷ xs) same h = ground (arith, any-filter p q f xs same, same x)

module _ {D : Type 0} where
  has_key-filter :
      (p : Trade D → Bool) (k : ℕ) (ts : List (Trade D))
      → has_key trade_id k ts ≡ false
      → has_key trade_id k (filter p ts) ≡ false
  has_key-filter p k [] h = refl
  has_key-filter p k (t ∷ ts) h = ground (arith, has_key-filter p k ts)

  pub filter-Unique :
      (p : Trade D → Bool) (ts : List (Trade D))
      → Unique trade_id ts
      → Unique trade_id (filter p ts)
  filter-Unique p [] u = tt
  filter-Unique p (t ∷ ts) u = elim (Bool-cases (p t)) [
    | inl passes ↦ rw passes (has_key-filter p t.id ts u.0, filter-Unique p ts u.1)
    | inr fails ↦ rw fails (filter-Unique p ts u.1)
  ]

  pub rows-has_key :
      (rows table : List (Trade D))
      → ((k : ℕ) → has_key trade_id k rows ≡ true → has_key trade_id k table ≡ true)
      → All (λ t. has_key trade_id t.id table ≡ true) rows
  rows-has_key [] table among = tt
  rows-has_key (t ∷ rows) table among = (
    among t.id (ground (arith, ==_iff t.id t.id)),
    rows-has_key rows table (λ k h. among k (ground (arith, h))),
  )

  module _ (ts : List (Trade D)) (sell : Trade D) where
    -- The sell of another buy is inserted.
    unsold-append :
        (t : Trade D)
        → is_some_of t.id sell.parent_id ≡ false
        → has_sell_child ts t.id ≡ false
        → has_sell_child (ts ++ (sell ∷ [])) t.id ≡ false
    unfolding has_sell_child
    unsold-append t other unsold =
        any-append (λ s. is_sell s.side && is_some_of t.id s.parent_id) ts (sell ∷ [])
        ∙ ground (arith, other, unsold)

    pub append-Sellable :
        (fs : List (AccountTransfer D)) (k : ℕ) (rest : List (Trade D))
        → sell.parent_id ≡ some k
        → has_key trade_id k rest ≡ false
        → All (Sellable ts fs) rest
        → All (Sellable (ts ++ (sell ∷ [])) fs) rest
    append-Sellable fs k [] parent absent h = tt
    append-Sellable fs k (t ∷ rest) parent absent h = (
      record {
        stored = has_key-append trade_id t.id ts sell ∙ rw (h.0.stored) refl;
        unsold = unsold-append t (rw parent (ground (arith, absent))) h.0.unsold;
        funded = h.0.funded;
      },
      append-Sellable fs k rest parent (ground (arith, absent)) h.1,
    )
