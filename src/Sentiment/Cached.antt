-- ===== src/Sentiment/Cached.antt =====
-- `cachedProvider` of internal/sentiment/sentiment.go. A call is given by its symbol, the times at
-- which it reads the clock (before the lookup and at the store), and what the inner provider would
-- answer it. A `ttl` that is not positive is 0.
pub mod Recent
use outbound_api.Prelude.{
  ℕ, ◌+◌, ◌≡◌, Bool, true, false, ◌&&◌, Option, none, some, String, str_eq, List, [], ◌∷◌, ltb,
  if◌then◌else◌,
}
use outbound_api.Service.Signal.{Verdict}

pub record CachedEntry : Type 0 where
  pub result : Verdict
  pub expires_at : ℕ

-- `map[string]cachedEntry`
abbrev pub Entries : Type 0
Entries = String → Option CachedEntry

pub record Call : Type 0 where
  pub symbol : String
  pub before : ℕ
  pub after : ℕ
  pub inner : Option Verdict

-- `entry, ok := c.cache[symbol]; ok && time.Now().Before(entry.expiresAt)`, for a positive ttl.
unfoldable pub lookup_live : ℕ → ℕ → Option CachedEntry → Option Verdict
lookup_live ttl now none = none
lookup_live ttl now (some entry) =
    if ltb 0 ttl && ltb now entry.expires_at then some entry.result else none

unfoldable pub store_result : ℕ → Call → Verdict → Entries → Entries
store_result ttl call result cache = λ s.
    if ltb 0 ttl && str_eq s call.symbol
    then some (record { result = result; expires_at = call.after + ttl })
    else cache s

-- What the inner provider's answer leads to.
unfoldable pub ask_inner : ℕ → Call → Option Verdict → Entries → Option Verdict × Entries
ask_inner ttl call none cache = (none, cache)
ask_inner ttl call (some result) cache = (some result, store_result ttl call result cache)

unfoldable pub answer_from : ℕ → Call → Option Verdict → Entries → Option Verdict × Entries
answer_from ttl call none cache = ask_inner ttl call call.inner cache
answer_from ttl call (some result) cache = (some result, cache)

unfoldable pub cached_analyze : ℕ → Call → Entries → Option Verdict × Entries
cached_analyze ttl call cache =
    answer_from ttl call (lookup_live ttl call.before (cache call.symbol)) cache

-- The cache after some calls, the latest first, from an empty one.
unfoldable pub entries_after : ℕ → List Call → Entries
entries_after ttl [] = λ s. none
entries_after ttl (call ∷ earlier) = (cached_analyze ttl call (entries_after ttl earlier)).1
