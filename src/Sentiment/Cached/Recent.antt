-- ===== src/Sentiment/Cached/Recent.antt =====
-- Where the cached provider's answers come from.
use text.Mathlib.TextEquality.{eq_iff}
use outbound_api.Prelude.{
  ℕ, ◌+◌, ◌<◌, ◌≡◌, ◌⊎◌, inl, inr, refl, sym, ap, ◌∙◌, Bool, true, false, ◌&&◌, Option, none, some,
  String, List, [], ◌∷◌, arith, ltb, if◌then◌else◌,
}
use outbound_api.Service.Signal.{Verdict}
use outbound_api.Sentiment.Cached.{
  CachedEntry, Entries, Call, lookup_live, store_result, ask_inner, answer_from, cached_analyze,
  entries_after,
}

-- One of the calls was for the symbol, and the inner provider's answer to it is the entry.
abbrev pub Origin : ℕ → List Call → String → CachedEntry → Type 0
Origin ttl [] s entry = ⊥
Origin ttl (call ∷ earlier) s entry =
    (call.symbol ≡ s) × (call.inner ≡ some entry.result) × (entry.expires_at ≡ call.after + ttl)
    ⊎ Origin ttl earlier s entry

-- One of the calls was for the symbol, got the result from the inner provider, and stored it less
-- than `ttl` before `now`.
abbrev pub Recent : ℕ → List Call → String → ℕ → Verdict → Type 0
Recent ttl [] s now result = ⊥
Recent ttl (call ∷ earlier) s now result =
    (call.symbol ≡ s) × (call.inner ≡ some result) × (now < call.after + ttl)
    ⊎ Recent ttl earlier s now result

Origin-Recent :
    (ttl : ℕ) (calls : List Call) (s : String) (entry : CachedEntry) (now : ℕ)
    → now < entry.expires_at
    → Origin ttl calls s entry
    → Recent ttl calls s now entry.result
Origin-Recent ttl [] s entry now h o = o
Origin-Recent ttl (call ∷ earlier) s entry now h (inl (for, got, until)) =
    inl (for, got, rw until at h)
Origin-Recent ttl (call ∷ earlier) s entry now h (inr o) =
    inr (Origin-Recent ttl earlier s entry now h o)

-- Every entry has its origin among the calls.
abbrev Traced : ℕ → List Call → Entries → Type 0
Traced ttl calls cache =
    (s : String) (entry : CachedEntry) → cache s ≡ some entry → Origin ttl calls s entry

-- The entry is the new one, under the test, or the old one.
new_or_old :
    (b : Bool) (new entry : CachedEntry) (o : Option CachedEntry)
    → (if b then some new else o) ≡ some entry
    → (b ≡ true) × (new ≡ entry) ⊎ (o ≡ some entry)
new_or_old true new entry o e = inl (refl, cc)
new_or_old false new entry o e = inr e

right_true : (a b : Bool) → (a && b) ≡ true → b ≡ true
right_true true b e = e
right_true false b e = cc

store_result-Origin :
    (ttl : ℕ) (call : Call) (earlier : List Call) (result : Verdict) (cache : Entries)
    → call.inner ≡ some result
    → Traced ttl earlier cache
    → Traced ttl (call ∷ earlier) (store_result ttl call result cache)
unfolding store_result
store_result-Origin ttl call earlier result cache got traced s entry e =
    elim (new_or_old _ _ entry (cache s) e) [
      | inl (test, new) ↦ inl (
        sym ((eq_iff s call.symbol).0 (right_true (ltb 0 ttl) _ test)),
        got ∙ ap (λ n. some n.result) new,
        sym (ap (λ (n : CachedEntry). n.expires_at) new),
      )
      | inr old ↦ inr (traced s entry old)
    ]

ask_inner-Origin :
    (ttl : ℕ) (call : Call) (earlier : List Call) (answer : Option Verdict) (cache : Entries)
    → call.inner ≡ answer
    → Traced ttl earlier cache
    → Traced ttl (call ∷ earlier) (ask_inner ttl call answer cache).1
unfolding ask_inner
ask_inner-Origin ttl call earlier none cache got traced = λ s entry e. inr (traced s entry e)
ask_inner-Origin ttl call earlier (some result) cache got traced =
    store_result-Origin ttl call earlier result cache got traced

answer_from-Origin :
    (ttl : ℕ) (call : Call) (earlier : List Call) (hit : Option Verdict) (cache : Entries)
    → Traced ttl earlier cache
    → Traced ttl (call ∷ earlier) (answer_from ttl call hit cache).1
unfolding answer_from
answer_from-Origin ttl call earlier none cache traced =
    ask_inner-Origin ttl call earlier call.inner cache refl traced
answer_from-Origin ttl call earlier (some result) cache traced = λ s entry e. inr (traced s entry e)

entries_after-Origin : (ttl : ℕ) (calls : List Call) → Traced ttl calls (entries_after ttl calls)
unfolding entries_after cached_analyze
entries_after-Origin ttl [] = λ s entry e. cc
entries_after-Origin ttl (call ∷ earlier) =
    answer_from-Origin ttl call earlier
      (lookup_live ttl call.before (entries_after ttl earlier call.symbol))
      (entries_after ttl earlier) (entries_after-Origin ttl earlier)

shown : (b : Bool) (x y : Verdict) → (if b then some x else none) ≡ some y → (b ≡ true) × (x ≡ y)
shown true x y e = (refl, cc)
shown false x y e = cc

ltb-lt : (a b : ℕ) → ltb a b ≡ true → a < b
ltb-lt a b h = ground arith

-- A hit is an entry that has not expired.
lookup_live-some :
    (ttl now : ℕ) (o : Option CachedEntry) (result : Verdict)
    → lookup_live ttl now o ≡ some result
    → (entry : CachedEntry) × (o ≡ some entry) × (entry.result ≡ result) × (now < entry.expires_at)
unfolding lookup_live
lookup_live-some ttl now none result e = cc
lookup_live-some ttl now (some entry) result e =
    let (test, same) = shown (ltb 0 ttl && ltb now entry.expires_at) entry.result result e in
    (entry, refl, same, ltb-lt now entry.expires_at (right_true (ltb 0 ttl) _ test))

-- What a call tells: the inner provider's answer to it, or one that the inner provider gave for the
-- same symbol less than `ttl` ago. A failure is the inner provider's.
abbrev pub Explained : ℕ → Call → List Call → Option Verdict → Type 0
Explained ttl call earlier none = call.inner ≡ none
Explained ttl call earlier (some result) =
    (call.inner ≡ some result) ⊎ Recent ttl earlier call.symbol call.before result

miss-Explained :
    (ttl : ℕ) (call : Call) (earlier : List Call) (answer : Option Verdict) (cache : Entries)
    → call.inner ≡ answer
    → Explained ttl call earlier (ask_inner ttl call answer cache).0
unfolding ask_inner
miss-Explained ttl call earlier none cache got = got
miss-Explained ttl call earlier (some result) cache got = inl got

hit-Explained :
    (ttl : ℕ) (call : Call) (earlier : List Call) (hit : Option Verdict)
    → lookup_live ttl call.before (entries_after ttl earlier call.symbol) ≡ hit
    → Explained ttl call earlier (answer_from ttl call hit (entries_after ttl earlier)).0
unfolding answer_from
hit-Explained ttl call earlier none e =
    miss-Explained ttl call earlier call.inner (entries_after ttl earlier) refl
hit-Explained ttl call earlier (some result) e =
    let (entry, stored, same, live) =
      lookup_live-some ttl call.before (entries_after ttl earlier call.symbol) result e in
    inr (
      rw same at (
        Origin-Recent ttl earlier call.symbol entry call.before live
          (entries_after-Origin ttl earlier call.symbol entry stored)))

-- After any calls, a call of the cached provider gives what the inner provider answers to it, or
-- what the inner provider answered to an earlier call for the same symbol, stored less than `ttl`
-- before this call looks; it fails only if the inner provider fails.
pub cached_analyze-Explained :
    (ttl : ℕ) (call : Call) (earlier : List Call)
    → Explained ttl call earlier (cached_analyze ttl call (entries_after ttl earlier)).0
unfolding cached_analyze
cached_analyze-Explained ttl call earlier = hit-Explained ttl call earlier _ refl
