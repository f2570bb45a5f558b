-- ===== src/Server/Shutdown.antt =====
-- What the workers of cmd/server/main.go do from `streamCancel` on. Each loops over a `select` with
-- two cases: an item of the channel, and `<-streamCtx.Done()`, which is now always ready. Neither the
-- length of a round nor the ten seconds that `main` waits for the workers is modelled. A worker's
-- `handle` and the world that it changes are those of Server.Workers.
use outbound_api.Prelude.{
  ℕ, zero, suc, ◌+◌, ◌≤◌, ◌≡◌, refl, ap, ◌∙◌, ◌⊎◌, Bool-cases, inl, inr, Option, none, some, List,
  [], ◌∷◌, arith, ltb, length, length-append,
}
use outbound_api.Service.Trade.Updates.{TradeUpdate}
use outbound_api.Server.Channel.{Channel, offer, take_first, receive}
use outbound_api.Server.Workers.{Bar, Server}

-- `live` is the number of workers that have not returned.
pub record Pool (A W : Type 0) : Type 0 where
  pub live : ℕ
  pub channel : Channel A
  pub world : W

-- The case that a `select` takes when both are ready.
pub data Choice : Type 0 where
  takes leaves : Choice

-- A handler still sends an item, or a worker that has not returned makes a round of its loop.
pub data Moment (A : Type 0) : Type 0 where
  arrives : A → Moment A
  round : Choice → Moment A

abbrev pub one_less : ℕ → ℕ
one_less zero = zero
one_less (suc n) = n

module _ {A W : Type 0} (handle : Option A → W → W) where
  unfoldable pub return_one : Pool A W → Pool A W
  return_one p = record p { live = one_less p.live }

  -- An empty channel is not ready, so that the worker returns.
  abbrev pub handle_item : Pool A W → Option A × Channel A → Pool A W
  handle_item p (none, c) = return_one p
  handle_item p (some x, c) = record p { channel = c; world = handle (some x) p.world }

  unfoldable pub select_round : Choice → Pool A W → Pool A W
  unfolding return_one
  select_round takes p = handle_item p (receive p.channel)
  select_round leaves p = return_one p

  abbrev pub live_round : ℕ → Choice → Pool A W → Pool A W
  live_round zero c p = p
  live_round (suc n) c p = select_round c p

  unfoldable pub moment : Moment A → Pool A W → Pool A W
  moment (arrives x) p = record p { channel = (offer x p.channel).1 }
  moment (round c) p = live_round p.live c p

  unfoldable pub moments : List (Moment A) → Pool A W → Pool A W
  moments [] p = p
  moments (m ∷ rest) p = moments rest (moment m p)

  -- How many rounds and how many arrivals there are.
  abbrev pub rounds_of : List (Moment A) → ℕ
  rounds_of [] = 0
  rounds_of (arrives x ∷ rest) = rounds_of rest
  rounds_of (round c ∷ rest) = suc (rounds_of rest)

  abbrev pub arrivals_of : List (Moment A) → ℕ
  arrivals_of [] = 0
  arrivals_of (arrives x ∷ rest) = suc (arrivals_of rest)
  arrivals_of (round c ∷ rest) = arrivals_of rest

  -- The rounds that may still be made.
  abbrev work : Pool A W → ℕ
  work p = p.live + length p.channel.buffer

  offer-length : (x : A) (c : Channel A) → length (offer x c).1.buffer ≤ suc (length c.buffer)
  unfolding offer
  offer-length x c = elim (Bool-cases (ltb (length c.buffer) c.capacity)) [
    | inl fits ↦ rw (fits, length-append c.buffer (x ∷ [])) (omega arith)
    | inr full ↦ rw full (omega arith)
  ]

  take_first-work :
      (n : ℕ) (p : Pool A W) (buffer : List A)
      → p.live ≡ suc n
      → length p.channel.buffer ≡ length buffer
      → suc (work (handle_item p (take_first buffer p.channel))) ≤ work p
  unfolding return_one
  take_first-work n p [] live e = rw live (omega arith)
  take_first-work n p (x ∷ rest) live e = omega arith

  round-work :
      (c : Choice) (n : ℕ) (p : Pool A W) → p.live ≡ suc n → suc (work (select_round c p)) ≤ work p
  unfolding select_round return_one receive
  round-work takes n p live = take_first-work n p p.channel.buffer live refl
  round-work leaves n p live = rw live (omega arith)

  -- A round is one less to make, unless all workers have returned.
  live_round-work :
      (c : Choice) (k : ℕ) (p : Pool A W)
      → p.live ≡ k
      → (p.live ≡ 0 ⊎ suc (work (live_round k c p)) ≤ work p)
  live_round-work c zero p live = inl live
  live_round-work c (suc k) p live = inr (round-work c k p live)

  nobody_live : (c : Choice) (k : ℕ) (p : Pool A W) → k ≡ 0 → live_round k c p ≡ p
  nobody_live c zero p h = refl
  nobody_live c (suc k) p h = absurd (omega arith)

  -- Nobody comes back.
  returned_stay : (ms : List (Moment A)) (p : Pool A W) → p.live ≡ 0 → (moments ms p).live ≡ 0
  unfolding moments moment
  returned_stay [] p h = h
  returned_stay (arrives x ∷ rest) p h = returned_stay rest (moment (arrives x) p) h
  returned_stay (round c ∷ rest) p h =
      ap (λ q. (moments rest q).live) (nobody_live c p.live p h) ∙ returned_stay rest p h

  -- From `streamCancel` on, whichever ready case every `select` takes, whatever is sent meanwhile and
  -- whether or not it still fits the channel, all workers have returned when there have been as many
  -- rounds as there are workers, waiting items and later sends.
  pub workers_return :
      (ms : List (Moment A)) (p : Pool A W)
      → p.live + length p.channel.buffer + arrivals_of ms ≤ rounds_of ms
      → (moments ms p).live ≡ 0
  unfolding moments moment
  workers_return [] p h = omega arith
  workers_return (arrives x ∷ rest) p h =
      let grows = offer-length x p.channel in
      workers_return rest (moment (arrives x) p) (omega arith)
  workers_return (round c ∷ rest) p h = elim (live_round-work c p.live p refl) [
    | inl returned ↦ returned_stay (round c ∷ rest) p returned
    | inr less ↦ workers_return rest (moment (round c) p) (omega arith)
  ]

-- The five bar workers and the worker of the trade updates.
unfoldable pub bar_pool : {D : Type 0} → Server D → Pool (Bar D) (Server D)
bar_pool s = record { live = 5; channel = s.bars; world = s }

unfoldable pub update_pool : {D : Type 0} → Server D → Pool (TradeUpdate D) (Server D)
update_pool s = record { live = 1; channel = s.updates; world = s }
