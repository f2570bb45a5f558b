-- ===== src/Budget/Tables.antt =====
-- What holds of the tables `trades` and `account_transfers`, and the changes of rows that keep it.
use outbound_api.Prelude.{
  ℕ, ◌+◌, ◌≤◌, ◌≡◌, refl, Bool, true, false, ◌&&◌, Option, none, some, List, [], ◌∷◌, ◌++◌, arith,
  ◌==◌, ==_iff, if◌then◌else◌, count, count-append, any, is_some_of, Option-cases, Bool-cases, inl,
  inr,
}
use outbound_api.Prelude.Table.{
  bit, has_key, lookup, update, erase, Unique, append-Unique, erase-Unique, update-Unique,
  count-erase, count-update, count-pos, lookup-update, lookup-eq-none, lookup-append,
}
use outbound_api.Model.{Trade, AccountTransfer, is_buy, is_active}
use outbound_api.Repository.Alike.{trade_id}
use outbound_api.Repository.Transfers.{has_slot, taken, given}

-- The slots that are left and the buys that hold one add up to `total`.
abbrev pub Adds : ℕ → ℕ → Option ℕ → Type 0
Adds h total none = ⊥
Adds h total (some n) = n + h ≡ total

pub Adds-shift : (h h' n n' : ℕ) (o : Option ℕ) → h' + n ≡ h + n' → Adds h n o → Adds h' n' o
Adds-shift h h' n n' none e s = s
Adds-shift h h' n n' (some k) e s = omega arith

Adds-le : (h total b : ℕ) (o : Option ℕ) → b ≤ h → Adds h total o → b ≤ total
Adds-le h total b none l s = absurd s
Adds-le h total b (some n) l s = omega arith

module _ {D : Type 0} where
  abbrev pub transfer_id : AccountTransfer D → ℕ
  transfer_id t = t.id

  -- A buy that is not void holds a slot of its transfer.
  abbrev pub holds : ℕ → Trade D → Bool
  holds a t = is_buy t.side && is_active t.status && is_some_of a t.account_transfer_id

  abbrev pub held : ℕ → List (Trade D) → ℕ
  held a ts = count (holds a) ts

  -- `remaining_trades` of a row that may not be there.
  abbrev pub slots_of : Option (AccountTransfer D) → Option ℕ
  slots_of none = none
  slots_of (some t) = t.remaining_trades

  abbrev pub slots : ℕ → List (AccountTransfer D) → Option ℕ
  slots a fs = slots_of (lookup transfer_id a fs)

  -- Primary keys are unique, and the slots of transfer `a` add up to `total`.
  pub record Sound (a total : ℕ) (ts : List (Trade D)) (fs : List (AccountTransfer D))
      : Type 0 where
    pub unique_trades : Unique trade_id ts
    pub unique_transfers : Unique transfer_id fs
    pub adds : Adds (held a ts) total (slots a fs)

  module _ (a total : ℕ) (ts : List (Trade D)) (fs : List (AccountTransfer D)) where
    pub insert-Sound :
        (t : Trade D)
        → Sound a total ts fs
        → has_key trade_id t.id ts ≡ false
        → Sound a (total + bit (holds a t)) (ts ++ (t ∷ [])) fs
    insert-Sound t s h = record {
      unique_trades = append-Unique trade_id ts t s.unique_trades h;
      unique_transfers = s.unique_transfers;
      adds =
          Adds-shift _ _ total (total + bit (holds a t)) (slots a fs)
            (ground (arith, count-append (holds a) ts (t ∷ []))) s.adds;
    }

    pub update-Sound :
        (k : ℕ) (f : Trade D → Trade D) (old : Trade D) (total' : ℕ)
        → ((r : Trade D) → trade_id (f r) ≡ trade_id r)
        → Sound a total ts fs
        → lookup trade_id k ts ≡ some old
        → total + bit (holds a (f old)) ≡ total' + bit (holds a old)
        → Sound a total' (update trade_id k f ts) fs
    update-Sound k f old total' keeps s h e = record {
      unique_trades = update-Unique trade_id k f keeps ts s.unique_trades;
      unique_transfers = s.unique_transfers;
      adds =
          Adds-shift _ _ total total' (slots a fs)
            (omega (arith, count-update trade_id (holds a) k f ts old s.unique_trades h)) s.adds;
    }

    pub erase-Sound :
        (k : ℕ) (old : Trade D)
        → Sound a total ts fs
        → lookup trade_id k ts ≡ some old
        → holds a old ≡ false
        → Sound a total (erase trade_id k ts) fs
    erase-Sound k old s h e = record {
      unique_trades = erase-Unique trade_id k ts s.unique_trades;
      unique_transfers = s.unique_transfers;
      adds =
          Adds-shift _ _ total total (slots a fs)
            (ground (arith, count-erase trade_id (holds a) k ts old s.unique_trades h)) s.adds;
    }

  no_slot_at :
      (k : ℕ) (fs : List (AccountTransfer D))
      → has_key transfer_id k fs ≡ false
      → any (λ t. t.id == k && has_slot t.remaining_trades) fs ≡ false
  no_slot_at k [] h = refl
  no_slot_at k (t ∷ fs) h = ground (arith, no_slot_at k fs)

  -- With unique keys, a row with the key and a slot is the row at the key.
  slot_at :
      (k : ℕ) (fs : List (AccountTransfer D)) (t : AccountTransfer D)
      → Unique transfer_id fs
      → any (λ t. t.id == k && has_slot t.remaining_trades) fs ≡ true
      → lookup transfer_id k fs ≡ some t
      → has_slot t.remaining_trades ≡ true
  slot_at k [] t u h e = cc
  slot_at k (x ∷ fs) t u h e = elim (Bool-cases (x.id == k)) [
    | inl here ↦
        let none_below = no_slot_at k fs (rw (← (==_iff x.id k).0 here) u.0) in ground arith
    | inr there ↦ ground (arith, slot_at k fs t u.1)
  ]

  slots-update :
      (a k : ℕ) (f : AccountTransfer D → AccountTransfer D) (fs : List (AccountTransfer D))
      (t : AccountTransfer D)
      → ((r : AccountTransfer D) → transfer_id (f r) ≡ transfer_id r)
      → lookup transfer_id a fs ≡ some t
      → slots a (update transfer_id k f fs)
        ≡ (if k == a then (f t).remaining_trades else t.remaining_trades)
  slots-update a k f fs t keeps e = rw (lookup-update transfer_id k f keeps a fs t e) (ground arith)

  taken-id : (at : ℕ) (r : AccountTransfer D) → transfer_id (taken at r) ≡ transfer_id r
  taken-id at r = ground arith

  Adds-taken :
      (h total b a at : ℕ) (t : AccountTransfer D)
      → Adds h (total + bit (b == a)) t.remaining_trades
      → (b ≡ a → has_slot t.remaining_trades ≡ true)
      → Adds h total (if b == a then (taken at t).remaining_trades else t.remaining_trades)
  Adds-taken h total b a at t s e = ground arith

  Adds-given :
      (h total b a at : ℕ) (t : AccountTransfer D)
      → Adds h total t.remaining_trades
      → Adds h
          (total + bit (b == a))
          (if b == a then (given at t).remaining_trades else t.remaining_trades)
  Adds-given h total b a at t s = ground arith

  module _ (a total b at : ℕ) (ts : List (Trade D)) (fs : List (AccountTransfer D)) where
    pub take-Sound :
        Sound a (total + bit (b == a)) ts fs
        → any (λ t. t.id == b && has_slot t.remaining_trades) fs ≡ true
        → Sound a total ts (update transfer_id b (taken at) fs)
    take-Sound s h = record {
      unique_trades = s.unique_trades;
      unique_transfers = update-Unique transfer_id b (taken at) (taken-id at) fs s.unique_transfers;
      adds = elim (Option-cases (lookup transfer_id a fs)) [
        | inl e ↦ absurd (rw e at (s.adds))
        | inr (t, e) ↦ rw (slots-update a b (taken at) fs t (taken-id at) e) (
            Adds-taken (held a ts) total b a at t (rw e at (s.adds))
              λ same. slot_at b fs t s.unique_transfers h (rw same e))
      ];
    }

    pub give-Sound :
        Sound a total ts fs → Sound a (total + bit (b == a)) ts (update transfer_id b (given at) fs)
    give-Sound s = record {
      unique_trades = s.unique_trades;
      unique_transfers = update-Unique transfer_id b (given at) (λ r. refl) fs s.unique_transfers;
      adds = elim (Option-cases (lookup transfer_id a fs)) [
        | inl e ↦ absurd (rw e at (s.adds))
        | inr (t, e) ↦
            rw (slots-update a b (given at) fs t (λ r. refl) e)
              (Adds-given (held a ts) total b a at t (rw e at (s.adds)))
      ];
    }

  pub append-Sound :
      (a total : ℕ) (ts : List (Trade D)) (fs : List (AccountTransfer D)) (t : AccountTransfer D)
      → Sound a total ts fs
      → has_key transfer_id t.id fs ≡ false
      → Sound a total ts (fs ++ (t ∷ []))
  append-Sound a total ts fs t s h = record {
    unique_trades = s.unique_trades;
    unique_transfers = append-Unique transfer_id fs t s.unique_transfers h;
    adds = rw (lookup-append transfer_id a fs t h) (elim (Bool-cases (t.id == a)) [
      | inl same ↦
          absurd
            (rw (lookup-eq-none transfer_id a fs (rw (← (==_iff t.id a).0 same) h)) at (s.adds))
      | inr other ↦ rw other (s.adds)
    ]);
  }

  -- A row that holds a slot is part of the total.
  pub bit-le-total :
      (a total k : ℕ) (ts : List (Trade D)) (fs : List (AccountTransfer D)) (old : Trade D)
      → Sound a total ts fs
      → lookup trade_id k ts ≡ some old
      → bit (holds a old) ≤ total
  bit-le-total a total k ts fs old s e =
      Adds-le (held a ts) total (bit (holds a old)) (slots a fs)
        (count-pos trade_id (holds a) k ts old e) s.adds
