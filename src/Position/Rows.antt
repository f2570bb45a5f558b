-- ===== src/Position/Rows.antt =====
-- The open positions of a symbol among the rows of `trades`. While a sell waits for its order, it is
-- in `pending`, and its buy still counts as open: so an error of `PlaceOrder`, which takes the
-- sell away again, opens no second position.
use outbound_api.Prelude.{
  ℕ, ◌+◌, ◌≤◌, ◌≡◌, refl, ap, Bool, true, false, not, ◌&&◌, some, String, str_eq, List, [], ◌∷◌,
  ◌++◌, arith, any, count, count-append, ◌==◌, ==_iff, is_some_of,
}
use outbound_api.Prelude.Table.{bit, has_key, lookup, update, erase, Unique, count-update}
use outbound_api.Model.{Trade, is_buy, is_sell, is_active}
use outbound_api.Repository.Store.{Env}
use outbound_api.Repository.Trades.{overwrite}
use outbound_api.Repository.Alike.{trade_id}

module _ {A : Type 0} where
  pub count-le :
      (p q : A → Bool) (xs : List A) → ((x : A) → p x ≡ true → q x ≡ true) → count p xs ≤ count q xs
  count-le p q [] h = omega arith
  count-le p q (x ∷ xs) h = ground (arith, count-le p q xs h, h x)

abbrev pub pending : List ℕ → ℕ → Bool
pending ks id = any (λ k. k == id) ks

module _ {D : Type 0} where
  abbrev pub is_sell_of : ℕ → Trade D → Bool
  is_sell_of id s = is_sell s.side && is_some_of id s.parent_id

  -- A sell of the buy `id` that is not pending.
  abbrev pub is_child : List ℕ → ℕ → Trade D → Bool
  is_child ks id s = is_sell_of id s && not (pending ks s.id)

  abbrev pub children : List ℕ → List (Trade D) → ℕ → ℕ
  children ks ts id = count (is_child ks id) ts

  count-erase-le :
      (p : Trade D → Bool) (k : ℕ) (ts : List (Trade D))
      → count p (erase trade_id k ts) ≤ count p ts
  count-erase-le p k [] = omega arith
  count-erase-le p k (t ∷ ts) = ground (arith, count-erase-le p k ts)

  children-erase :
      (k : ℕ) (ks : List ℕ) (ts : List (Trade D)) (id : ℕ)
      → children (k ∷ ks) ts id ≤ children ks (erase trade_id k ts) id
  children-erase k ks [] id = omega arith
  children-erase k ks (t ∷ ts) id =
      ground (arith, children-erase k ks ts id, ==_iff k t.id, ==_iff t.id k)

  -- A pending sell that is not there.
  children-absent :
      (k : ℕ) (ks : List ℕ) (ts : List (Trade D)) (id : ℕ)
      → has_key trade_id k ts ≡ false
      → children (k ∷ ks) ts id ≡ children ks ts id
  children-absent k ks [] id absent = refl
  children-absent k ks (t ∷ ts) id absent =
      ground (arith, children-absent k ks ts id, ==_iff k t.id, ==_iff t.id k)

  children-fewer :
      (k : ℕ) (ks : List ℕ) (ts : List (Trade D)) (id : ℕ)
      → children (k ∷ ks) ts id ≤ children ks ts id
  children-fewer k ks ts id =
      count-le (is_child (k ∷ ks) id) (is_child ks id) ts (λ s h. ground arith)

module _ {D : Type 0} (symbol : String) where
  abbrev pub is_position : Trade D → Bool
  is_position t = str_eq t.symbol symbol && is_buy t.side && is_active t.status

  abbrev pub is_open : List ℕ → List (Trade D) → Trade D → Bool
  is_open ks ts t = is_position t && (children ks ts t.id == 0)

  abbrev pub positions : List ℕ → List (Trade D) → ℕ
  positions ks ts = count (is_open ks ts) ts

  open-le :
      (ks ks' : List ℕ) (ts ts' : List (Trade D)) (t : Trade D)
      → children ks ts t.id ≤ children ks' ts' t.id
      → is_open ks' ts' t ≡ true
      → is_open ks ts t ≡ true
  open-le ks ks' ts ts' t more h =
      ground (arith, ==_iff (children ks ts t.id) 0, ==_iff (children ks' ts' t.id) 0)

  pub positions-erase :
      (k : ℕ) (ks : List ℕ) (ts : List (Trade D))
      → positions ks (erase trade_id k ts) ≤ positions (k ∷ ks) ts
  positions-erase k ks ts =
      let fewer = count-erase-le (is_open ks (erase trade_id k ts)) k ts in
      let less =
        count-le (is_open ks (erase trade_id k ts)) (is_open (k ∷ ks) ts) ts
          (λ t. open-le (k ∷ ks) ks ts (erase trade_id k ts) t (children-erase k ks ts t.id)) in
      omega arith

  pub positions-settled :
      (k : ℕ) (ks : List ℕ) (ts : List (Trade D)) → positions ks ts ≤ positions (k ∷ ks) ts
  positions-settled k ks ts =
      count-le (is_open ks ts) (is_open (k ∷ ks) ts) ts
        (λ t. open-le (k ∷ ks) ks ts ts t (children-fewer k ks ts t.id))

  pub positions-reorder :
      (ks ks' : List ℕ) (ts : List (Trade D))
      → ((id : ℕ) → pending ks id ≡ pending ks' id)
      → positions ks' ts ≤ positions ks ts
  positions-reorder ks ks' ts same = count-le (is_open ks' ts) (is_open ks ts) ts (λ t.
      open-le ks ks' ts ts t
        (count-le (is_child ks t.id) (is_child ks' t.id) ts (λ s h. ground (arith, same s.id))))

  pub positions-sell :
      (s : Trade D) (ks : List ℕ) (ts : List (Trade D))
      → has_key trade_id s.id ts ≡ false
      → is_buy s.side ≡ false
      → positions (s.id ∷ ks) (ts ++ (s ∷ [])) ≤ positions ks ts
  positions-sell s ks ts fresh sells =
      let split = count-append (is_open (s.id ∷ ks) (ts ++ (s ∷ []))) ts (s ∷ []) in
      let less =
        count-le (is_open (s.id ∷ ks) (ts ++ (s ∷ []))) (is_open ks ts) ts
          (λ t. open-le ks (s.id ∷ ks) ts (ts ++ (s ∷ [])) t (more t)) in
      ground arith
    where
      more : (t : Trade D) → children ks ts t.id ≤ children (s.id ∷ ks) (ts ++ (s ∷ [])) t.id
      more t =
          let split = count-append (is_child (s.id ∷ ks) t.id) ts (s ∷ []) in
          let same = children-absent s.id ks ts t.id fresh in omega arith

  pub positions-append :
      (b : Trade D) (ks : List ℕ) (ts : List (Trade D))
      → positions ks (ts ++ (b ∷ [])) ≤ positions ks ts + bit (is_position b)
  positions-append b ks ts =
      let split = count-append (is_open ks (ts ++ (b ∷ []))) ts (b ∷ []) in
      let less =
        count-le (is_open ks (ts ++ (b ∷ []))) (is_open ks ts) ts
          (λ t. open-le ks ks ts (ts ++ (b ∷ [])) t (more t)) in
      ground arith
    where
      more : (t : Trade D) → children ks ts t.id ≤ children ks (ts ++ (b ∷ [])) t.id
      more t = let split = count-append (is_child ks t.id) ts (b ∷ []) in omega arith

  -- What an update keeps of a row; a trade that is over stays over.
  pub record Same (new r : Trade D) : Type 0 where
    pub sells : (id : ℕ) → is_sell_of id new ≡ is_sell_of id r
    pub place : is_position new ≡ true → is_position r ≡ true

  module _ (env : Env D) (new r : Trade D) (ks : List ℕ) (ts : List (Trade D))
      (unique : Unique trade_id ts) (row : lookup trade_id new.id ts ≡ some r)
      (same : Same new r) where
    children-update :
        (id : ℕ)
        → children ks (update trade_id new.id (overwrite env new) ts) id ≡ children ks ts id
    children-update id =
        let split =
          count-update trade_id (is_child ks id) new.id (overwrite env new) ts r unique row in
        let alike : is_child ks id (overwrite env new r) ≡ is_child ks id r =
          ap (λ b. b && not (pending ks r.id)) (same.sells id) in
        let twice : bit (is_child ks id (overwrite env new r)) ≡ bit (is_child ks id r) =
          ap bit alike in
        omega arith

    pub positions-update :
        positions ks (update trade_id new.id (overwrite env new) ts) ≤ positions ks ts
    positions-update =
        let us : List (Trade D) = update trade_id new.id (overwrite env new) ts in
        let less =
          count-le (is_open ks us) (is_open ks ts) us
            (λ t. open-le ks ks ts us t (rw (children-update t.id) (omega arith))) in
        let split =
          count-update trade_id (is_open ks ts) new.id (overwrite env new) ts r unique row in
        let place = same.place in
        let fewer : bit (is_open ks ts (overwrite env new r)) ≤ bit (is_open ks ts r) =
          ground (arith, place) in
        omega arith
