-- ===== src/Server/Refresh/Follows.antt =====
-- The supervisor follows the watchlist.
use mathlib.Core.Bool.{false≢true}
use text.Mathlib.TextEquality.{eq_iff}
use text.Mathlib.TextPositions.{eq_refl}
use outbound_api.Prelude.{
  ◌≡◌, refl, sym, ap, ◌∙◌, Bool, true, false, not, ◌&&◌, ◌||◌, Bool-cases, inl, inr, some, String,
  str_eq, List, [], ◌∷◌, arith,
}
use outbound_api.Decimal.{Decimal}
use outbound_api.Alpaca.Supervisor.{
  Symbols, add_all, remove_all, StreamSupervisor, succeeds, subscribe, unsubscribe,
}
use outbound_api.Watchlist.Refine.{is_in}
use outbound_api.Server.Seeding.{Bars}
use outbound_api.Server.Refresh.{
  Feed, Refusals, difference, seed_if, add_symbols, remove_symbols, refresh,
}

-- The answer of `Symbols` has the wanted symbols.
abbrev pub Lists : List String → StreamSupervisor → Type 0
Lists listed s = (t : String) → s.symbols t ≡ is_in t listed

str_eq_comm : (s t : String) → str_eq s t ≡ str_eq t s
str_eq_comm s t = elim (Bool-cases (str_eq s t)) [
  | inl e ↦ e ∙ sym ((eq_iff t s).1 (sym ((eq_iff s t).0 e)))
  | inr e ↦ elim (Bool-cases (str_eq t s)) [
    | inl e' ↦ absurd (false≢true (sym e ∙ (eq_iff s t).1 (sym ((eq_iff t s).0 e'))))
    | inr e' ↦ e ∙ sym e'
  ]
]

pub add_all-is_in :
    (t : String) (xs : List String) (set : Symbols) → add_all xs set t ≡ (is_in t xs || set t)
add_all-is_in t [] set = refl
add_all-is_in t (s ∷ rest) set =
    ground (arith, add_all-is_in t rest (λ u. str_eq u s || set u), str_eq_comm s t)

remove_all-is_in :
    (t : String) (xs : List String) (set : Symbols)
    → remove_all xs set t ≡ (not (is_in t xs) && set t)
remove_all-is_in t [] set = refl
remove_all-is_in t (s ∷ rest) set =
    ground (arith, remove_all-is_in t rest (λ u. not (str_eq u s) && set u), str_eq_comm s t)

same_place : (s t : String) (ys : List String) → str_eq s t ≡ true → is_in s ys ≡ is_in t ys
same_place s t ys h = ap (λ u. is_in u ys) ((eq_iff s t).0 h)

is_in-difference :
    (t : String) (xs ys : List String)
    → is_in t (difference xs ys) ≡ (is_in t xs && not (is_in t ys))
unfolding difference
is_in-difference t [] ys = refl
is_in-difference t (x ∷ xs) ys = ground (arith, is_in-difference t xs ys, same_place x t ys)

module _ {D : Type 0} ⦃dec : Decimal D⦄ (bars : Bars D) where
  seed_if-supervisor :
      (b : Bool) (xs : List String) (f : Feed D) → (seed_if bars b xs f).supervisor ≡ f.supervisor
  seed_if-supervisor true xs f = refl
  seed_if-supervisor false xs f = refl

  add_symbols-is_in :
      (t : String) (refused : Bool) (xs : List String) (f : Feed D)
      → (add_symbols bars refused xs f).supervisor.symbols t
        ≡ (is_in t xs || f.supervisor.symbols t)
  unfolding add_symbols subscribe
  add_symbols-is_in t refused [] f = refl
  add_symbols-is_in t refused (s ∷ rest) f =
      ap (λ v. v.symbols t) (seed_if-supervisor (succeeds refused f.supervisor.client) (s ∷ rest) _)
      ∙ add_all-is_in t (s ∷ rest) f.supervisor.symbols

  remove_symbols-is_in :
      (t : String) (refused : Bool) (xs : List String) (f : Feed D)
      → (remove_symbols bars refused xs f).supervisor.symbols t
        ≡ (not (is_in t xs) && f.supervisor.symbols t)
  unfolding remove_symbols unsubscribe
  remove_symbols-is_in t refused [] f = refl
  remove_symbols-is_in t refused (s ∷ rest) f = remove_all-is_in t (s ∷ rest) f.supervisor.symbols

  -- After a refresh the wanted symbols are exactly those of the watchlist that it fetched, whatever
  -- was wanted before and whether or not the SDK refuses the calls.
  pub refresh-is_in :
      (refusals : Refusals) (listed fetched : List String) (f : Feed D)
      → Lists listed f.supervisor
      → (t : String)
      → (refresh bars refusals listed (some fetched) f).supervisor.symbols t ≡ is_in t fetched
  unfolding refresh
  refresh-is_in refusals listed fetched f lists t =
      rw
        (
          remove_symbols-is_in t refusals.at_unsubscribe (difference listed fetched)
              (add_symbols bars refusals.at_subscribe (difference fetched listed) f),
          add_symbols-is_in t refusals.at_subscribe (difference fetched listed) f,
          lists t,
          is_in-difference t listed fetched,
          is_in-difference t fetched listed,
        )
        (ground arith)

  no_difference :
      (xs ys : List String)
      → ((t : String) → is_in t xs ≡ true → is_in t ys ≡ true)
      → difference xs ys ≡ []
  unfolding difference
  no_difference [] ys h = refl
  no_difference (x ∷ xs) ys h =
      rw (h x (rw (eq_refl x) refl)) (no_difference xs ys λ t e. h t (ground arith))

  same_feed :
      (refusals : Refusals) (listed fetched : List String) (g : Feed D)
      → difference fetched listed ≡ []
      → difference listed fetched ≡ []
      → refresh bars refusals listed (some fetched) g ≡ g
  unfolding refresh add_symbols remove_symbols
  same_feed refusals listed fetched g e e' = rw (e, e') refl

  -- A refresh does not repeat itself: the next one with the same watchlist changes nothing, so it
  -- neither subscribes nor seeds again what the SDK refused to subscribe in the first.
  pub refresh-refresh :
      (refusals refusals' : Refusals) (listed listed' fetched : List String) (f : Feed D)
      → let f' = refresh bars refusals listed (some fetched) f in
        Lists listed f.supervisor
        → Lists listed' f'.supervisor
        → refresh bars refusals' listed' (some fetched) f' ≡ f'
  refresh-refresh refusals refusals' listed listed' fetched f lists lists' =
      same_feed refusals' listed' fetched (refresh bars refusals listed (some fetched) f)
        (no_difference fetched listed' λ t e. sym (lists' t) ∙ now t ∙ e)
        (no_difference listed' fetched λ t e. sym (now t) ∙ lists' t ∙ e)
    where
      now :
          (t : String)
          → (refresh bars refusals listed (some fetched) f).supervisor.symbols t ≡ is_in t fetched
      now = refresh-is_in refusals listed fetched f lists

  refused_adds :
      (xs : List String) (c : Symbols) (f : Feed D)
      → f.supervisor.client ≡ some c
      → (add_symbols bars true xs f).indicators ≡ f.indicators
  unfolding add_symbols subscribe
  refused_adds [] c f live = refl
  refused_adds (s ∷ rest) c f live = rw live refl

  remove_symbols-indicators :
      (refused : Bool) (xs : List String) (f : Feed D)
      → (remove_symbols bars refused xs f).indicators ≡ f.indicators
  unfolding remove_symbols
  remove_symbols-indicators refused [] f = refl
  remove_symbols-indicators refused (s ∷ rest) f = refl

  -- If the SDK of a live client refuses the subscription of a refresh, then the symbols of the
  -- watchlist count as wanted, but no symbol is seeded, neither then nor in the next refresh with the
  -- same watchlist.
  pub refused_not_seeded :
      (refused : Bool) (refusals' : Refusals) (listed listed' fetched : List String) (c : Symbols)
      (f : Feed D)
      → let f' =
          refresh bars
            (record { at_subscribe = true; at_unsubscribe = refused })
            listed
            (some fetched)
            f in
        let f'' = refresh bars refusals' listed' (some fetched) f' in
        f.supervisor.client ≡ some c
        → Lists listed f.supervisor
        → Lists listed' f'.supervisor
        → (f''.indicators ≡ f.indicators)
          × ((t : String) → f''.supervisor.symbols t ≡ is_in t fetched)
  unfolding refresh
  refused_not_seeded refused refusals' listed listed' fetched c f live lists lists' =
      let refusals : Refusals = record { at_subscribe = true; at_unsubscribe = refused } in
      let repeated = refresh-refresh refusals refusals' listed listed' fetched f lists lists' in
      (
        ap (λ g. g.indicators) repeated
            ∙ remove_symbols-indicators refused (difference listed fetched)
                (add_symbols bars true (difference fetched listed) f)
            ∙ refused_adds (difference fetched listed) c f live,
        λ t.
            ap (λ g. g.supervisor.symbols t) repeated
            ∙ refresh-is_in refusals listed fetched f lists t,
      )
