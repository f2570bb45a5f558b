-- ===== src/Repository/Transfers/Oldest.antt =====
-- The transfer that pays for the next buy.
use outbound_api.Prelude.{
  ℕ, ◌≤◌, ◌≡◌, ◌⊎◌, refl, true, false, Option, none, some, List, [], ◌∷◌, arith, leb, Bool-cases,
  inl, inr, All, if◌then◌else◌,
}
use outbound_api.Model.{AccountTransfer}
use outbound_api.Repository.Transfers.{has_slot, oldest_with_slot}

leb-le : (a b : ℕ) → leb a b ≡ true → a ≤ b
leb-le a b h = ground arith

leb-ge : (a b : ℕ) → leb a b ≡ false → b ≤ a
leb-ge a b h = ground arith

module _ {D : Type 0} where
  abbrev pub Among : AccountTransfer D → List (AccountTransfer D) → Type 0
  Among t [] = ⊥
  Among t (r ∷ rows) = (r ≡ t) ⊎ Among t rows

  -- The choice is a row with a slot that no other row with a slot is older than; there is none only
  -- if no row has a slot.
  abbrev pub IsOldest : List (AccountTransfer D) → Option (AccountTransfer D) → Type 0
  IsOldest rows none = All (λ r. has_slot r.remaining_trades ≡ false) rows
  IsOldest rows (some t) =
      Among t rows
      × (has_slot t.remaining_trades ≡ true)
      × All (λ r. has_slot r.remaining_trades ≡ true → t.created_at ≤ r.created_at) rows

  All-older :
      (a b : ℕ) (rows : List (AccountTransfer D))
      → a ≤ b
      → All (λ r. has_slot r.remaining_trades ≡ true → b ≤ r.created_at) rows
      → All (λ r. has_slot r.remaining_trades ≡ true → a ≤ r.created_at) rows
  All-older a b [] h all = tt
  All-older a b (r ∷ rows) h (first, all) =
      (λ s. omega (arith, first s, h), All-older a b rows h all)

  All-none :
      (a : ℕ) (rows : List (AccountTransfer D))
      → All (λ r. has_slot r.remaining_trades ≡ false) rows
      → All (λ r. has_slot r.remaining_trades ≡ true → a ≤ r.created_at) rows
  All-none a [] all = tt
  All-none a (r ∷ rows) (first, all) = (λ s. cc, All-none a rows all)

  -- The choice between a row and the choice among the rows after it.
  choice-IsOldest :
      (t : AccountTransfer D) (rows : List (AccountTransfer D)) (o : Option (AccountTransfer D))
      → IsOldest rows o
      → IsOldest (t ∷ rows) (
          if has_slot t.remaining_trades
          then elim o [
            | none ↦ some t
            | some r ↦ if leb t.created_at r.created_at then some t else some r
          ]
          else o)
  choice-IsOldest t rows none h = elim (Bool-cases (has_slot t.remaining_trades)) [
    | inl slot ↦ rw slot (inl refl, slot, ((λ s. omega arith), All-none t.created_at rows h))
    | inr full ↦ rw full (full, h)
  ]
  choice-IsOldest t rows (some r) (among, has, all) =
      elim (Bool-cases (has_slot t.remaining_trades)) [
        | inr full ↦ rw full (inr among, has, ((λ s. cc), all))
        | inl slot ↦ rw slot (elim (Bool-cases (leb t.created_at r.created_at)) [
          | inl older ↦ rw older (
            inl refl,
            slot,
            ((λ s. omega arith), All-older t.created_at r.created_at rows (leb-le _ _ older) all),
          )
          | inr newer ↦ rw newer (inr among, has, ((λ s. leb-ge _ _ newer), all))
        ])
      ]

  -- `oldest_with_slot`, the selection of `GetAvailableBudget`, gives one of the rows that has a
  -- slot and that no row with a slot is older than; it gives none only if no row has a slot.
  pub oldest_with_slot-IsOldest :
      (rows : List (AccountTransfer D)) → IsOldest rows (oldest_with_slot rows)
  unfolding oldest_with_slot
  oldest_with_slot-IsOldest [] = tt
  oldest_with_slot-IsOldest (t ∷ rows) =
      choice-IsOldest t rows (oldest_with_slot rows) (oldest_with_slot-IsOldest rows)
