-- ===== src/Watchlist/Contents.antt =====
-- The table of symbols as a function from symbols: whether a symbol is listed, and active.
use mathlib.Core.Bool.{false≢true}
use text.Mathlib.TextEquality.{eq_iff}
use text.Mathlib.TextPositions.{eq_refl}
use outbound_api.Prelude.{
  ◌≡◌, refl, sym, ap, ◌∙◌, Bool, true, false, Bool-cases, inl, inr, ◌||◌, Option, none, some,
  String, str_eq, List, [], ◌∷◌, ◌++◌, arith, if◌then◌else◌,
}
use outbound_api.Watchlist.{
  Watchlist, Rows, has_symbol, set_active, insert_symbol, create, activate, deactivate,
}

pub data Op : Type 0 where
  creates activates deactivates : String → Op

-- A call whose statement the database runs or fails.
unfoldable pub step : (String → Option String) → Bool × Op → Rows → Rows
step column (fails, creates s) rows = (create column fails s rows).1
step column (fails, activates s) rows = (activate fails s rows).1
step column (fails, deactivates s) rows = (deactivate fails s rows).1

unfoldable pub run : (String → Option String) → List (Bool × Op) → Rows → Rows
run column [] rows = rows
run column (op ∷ ops) rows = run column ops (step column op rows)

-- A watchlist as a function: `some` active flag of a symbol that is listed.
abbrev pub Listing : Type 0
Listing = String → Option Bool

abbrev pub listing : Rows → Listing
listing [] s = none
listing (r ∷ rows) s = if str_eq r.symbol s then some r.is_active else listing rows s

-- A new symbol is active, a listed one stays as it is.
abbrev pub listed_or_active : Option Bool → Option Bool
listed_or_active none = some true
listed_or_active (some b) = some b

abbrev pub flagged : Bool → Option Bool → Option Bool
flagged b none = none
flagged b (some old) = some b

abbrev pub change : (Option Bool → Option Bool) → Option String → Listing → Listing
change f none l = l
change f (some s) l = λ t. if str_eq s t then f (l t) else l t

-- The same call on the function.
abbrev pub replay_step : (String → Option String) → Bool × Op → Listing → Listing
replay_step column (true, op) l = l
replay_step column (false, creates s) l = change listed_or_active (column s) l
replay_step column (false, activates s) l = change (flagged true) (some s) l
replay_step column (false, deactivates s) l = change (flagged false) (some s) l

abbrev pub replay : (String → Option String) → List (Bool × Op) → Listing → Listing
replay column [] l = l
replay column (op ∷ ops) l = replay column ops (replay_step column op l)

-- The primary key.
abbrev pub Distinct : Rows → Type 0
Distinct [] = Unit
Distinct (r ∷ rows) = (has_symbol r.symbol rows ≡ false) × Distinct rows

pub same_symbol : (r s t : String) → str_eq r s ≡ true → str_eq s t ≡ str_eq r t
same_symbol r s t h = ap (λ x. str_eq x t) (sym ((eq_iff r s).0 h))

other_symbol : (r s t : String) → str_eq r s ≡ false → str_eq r t ≡ true → str_eq s t ≡ false
other_symbol r s t h k = elim (Bool-cases (str_eq s t)) [
  | inr e ↦ e
  | inl e ↦
      let clash : str_eq r s ≡ true = (eq_iff r s).1 ((eq_iff r t).0 k ∙ sym ((eq_iff s t).0 e)) in
      absurd (false≢true (sym h ∙ clash))
]

pub set_active-listing :
    (b : Bool) (s t : String) (rows : Rows)
    → listing (set_active b s rows) t ≡ change (flagged b) (some s) (listing rows) t
set_active-listing b s t [] = ground arith
set_active-listing b s t (r ∷ rows) =
    ground
      (arith, set_active-listing b s t rows, same_symbol r.symbol s t, other_symbol r.symbol s t)

append-listing :
    (s t : String) (rows : Rows)
    → has_symbol s rows ≡ false
    → listing (rows ++ (record { symbol = s; is_active = true } ∷ [])) t
      ≡ change listed_or_active (some s) (listing rows) t
append-listing s t [] h = refl
append-listing s t (r ∷ rows) h =
    ground (arith, append-listing s t rows, same_symbol r.symbol s t, other_symbol r.symbol s t)

-- A symbol that is listed stays as it is.
listed-change :
    (s t : String) (rows : Rows)
    → has_symbol s rows ≡ true
    → listing rows t ≡ change listed_or_active (some s) (listing rows) t
listed-change s t [] h = cc
listed-change s t (r ∷ rows) h =
    ground (arith, listed-change s t rows, same_symbol r.symbol s t, other_symbol r.symbol s t)

pub insert_symbol-listing :
    (s t : String) (rows : Rows)
    → listing (insert_symbol s rows) t ≡ change listed_or_active (some s) (listing rows) t
insert_symbol-listing s t rows = elim (Bool-cases (has_symbol s rows)) [
  | inl listed ↦ rw listed (listed-change s t rows listed)
  | inr new ↦ rw new (append-listing s t rows new)
]

set_active-has_symbol :
    (b : Bool) (s t : String) (rows : Rows) → has_symbol t (set_active b s rows) ≡ has_symbol t rows
set_active-has_symbol b s t [] = refl
set_active-has_symbol b s t (r ∷ rows) = ground (arith, set_active-has_symbol b s t rows)

pub set_active-Distinct :
    (b : Bool) (s : String) (rows : Rows) → Distinct rows → Distinct (set_active b s rows)
set_active-Distinct b s [] d = tt
set_active-Distinct b s (r ∷ rows) d =
    ground (arith, set_active-Distinct b s rows d.1, set_active-has_symbol b s r.symbol rows)

has_symbol-append :
    (t : String) (rows : Rows) (new : Watchlist)
    → has_symbol t (rows ++ (new ∷ [])) ≡ (has_symbol t rows || str_eq new.symbol t)
has_symbol-append t [] new = ground arith
has_symbol-append t (r ∷ rows) new = ground (arith, has_symbol-append t rows new)

append-Distinct :
    (rows : Rows) (new : Watchlist)
    → has_symbol new.symbol rows ≡ false
    → Distinct rows
    → Distinct (rows ++ (new ∷ []))
append-Distinct [] new h d = (refl, tt)
append-Distinct (r ∷ rows) new h d = ground (
  arith,
  append-Distinct rows new,
  has_symbol-append r.symbol rows new,
  same_symbol new.symbol r.symbol new.symbol,
  eq_refl new.symbol,
)

pub insert_symbol-Distinct :
    (s : String) (rows : Rows) → Distinct rows → Distinct (insert_symbol s rows)
insert_symbol-Distinct s rows d = elim (Bool-cases (has_symbol s rows)) [
  | inl listed ↦ rw listed d
  | inr new ↦ rw new (append-Distinct rows _ new d)
]
