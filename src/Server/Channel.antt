-- ===== src/Server/Channel.antt =====
-- A buffered channel, as the handlers of internal/alpaca/alpaca.go and the workers of
-- cmd/server/main.go use it: the buffer in order, the oldest item first. A handler sends in a `select`
-- with a `default`, so that it drops what does not fit; a receiver takes the oldest item. A send to a
-- waiting receiver is a send to an empty buffer and then its receive.
use outbound_api.Prelude.{
  ℕ, Bool, true, false, Option, none, some, List, [], ◌∷◌, ◌++◌, ltb, if◌then◌else◌, length,
}

-- `make(chan T, capacity)` and what was sent to it.
pub record Channel {ℓ} (A : Type ℓ) : Type ℓ where
  pub buffer : List A
  pub capacity : ℕ

module _ {ℓ} {A : Type ℓ} where
  abbrev pub make_chan : ℕ → Channel A
  make_chan capacity = record { buffer = []; capacity = capacity }

  -- `select { case c <- x: default: }`: whether the item was sent.
  unfoldable pub offer : A → Channel A → Bool × Channel A
  offer x c =
      if ltb (length c.buffer) c.capacity
      then (true, record c { buffer = c.buffer ++ (x ∷ []) })
      else (false, c)

  abbrev pub take_first : List A → Channel A → Option A × Channel A
  take_first [] c = (none, c)
  take_first (x ∷ rest) c = (some x, record c { buffer = rest })

  -- `<-c`: nothing while the buffer is empty.
  unfoldable pub receive : Channel A → Option A × Channel A
  receive c = take_first c.buffer c
