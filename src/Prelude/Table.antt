-- ===== src/Prelude/Table.antt =====
-- A database table with a numeric primary key: a list of rows, and the changes that SQL statements
-- with `WHERE id = $1` make to it. The laws speak of the row at a key and of counts of rows.
use mathlib.Core.Bool.{false≢true}
use outbound_api.Prelude.{
  ℕ, ◌+◌, ◌≤◌, ◌≡◌, refl, Bool, true, false, ◌||◌, Option, none, some, List, [], ◌∷◌, ◌++◌, arith,
  ◌==◌, if◌then◌else◌, count, find, sym, ◌∙◌, Bool-cases, ==_iff, inl, inr,
}

abbrev pub bit : Bool → ℕ
bit true = 1
bit false = 0

module _ {R : Type 0} (key : R → ℕ) where
  abbrev pub has_key : ℕ → List R → Bool
  has_key k [] = false
  has_key k (r ∷ rows) = key r == k || has_key k rows

  abbrev pub lookup : ℕ → List R → Option R
  lookup k [] = none
  lookup k (r ∷ rows) = if key r == k then some r else lookup k rows

  -- UPDATE … WHERE id = k
  abbrev pub update : ℕ → (R → R) → List R → List R
  update k f [] = []
  update k f (r ∷ rows) = (if key r == k then f r else r) ∷ update k f rows

  -- DELETE … WHERE id = k
  abbrev pub erase : ℕ → List R → List R
  erase k [] = []
  erase k (r ∷ rows) = let rest = erase k rows in if key r == k then rest else r ∷ rest

  -- The primary key: no two rows share it.
  abbrev pub Unique : List R → Type 0
  Unique [] = Unit
  Unique (r ∷ rows) = (has_key (key r) rows ≡ false) × Unique rows

  pub lookup-eq-none : (k : ℕ) (rows : List R) → has_key k rows ≡ false → lookup k rows ≡ none
  lookup-eq-none k [] h = refl
  lookup-eq-none k (r ∷ rows) h = ground (arith, lookup-eq-none k rows)

  pub key-lookup : (k : ℕ) (rows : List R) (r : R) → lookup k rows ≡ some r → key r ≡ k
  key-lookup k [] r h = cc
  key-lookup k (x ∷ rows) r h = ground (arith, key-lookup k rows r)

  pub has_key-append :
      (k : ℕ) (rows : List R) (r : R)
      → has_key k (rows ++ (r ∷ [])) ≡ (has_key k rows || (key r == k))
  has_key-append k [] r = ground arith
  has_key-append k (x ∷ rows) r = ground (arith, has_key-append k rows r)

  pub append-Unique :
      (rows : List R) (r : R)
      → Unique rows
      → has_key (key r) rows ≡ false
      → Unique (rows ++ (r ∷ []))
  append-Unique [] r u h = (refl, tt)
  append-Unique (x ∷ rows) r u h =
      ground (arith, append-Unique rows r u.1, has_key-append (key x) rows r)

  pub lookup-append :
      (k : ℕ) (rows : List R) (r : R)
      → has_key (key r) rows ≡ false
      → lookup k (rows ++ (r ∷ [])) ≡ (if key r == k then some r else lookup k rows)
  lookup-append k [] r h = refl
  lookup-append k (x ∷ rows) r h = ground (arith, lookup-append k rows r)

  pub has_key-erase :
      (j k : ℕ) (rows : List R) → has_key j rows ≡ false → has_key j (erase k rows) ≡ false
  has_key-erase j k [] h = refl
  has_key-erase j k (r ∷ rows) h = ground (arith, has_key-erase j k rows)

  pub erase-Unique : (k : ℕ) (rows : List R) → Unique rows → Unique (erase k rows)
  erase-Unique k [] u = tt
  erase-Unique k (r ∷ rows) u =
      ground (arith, erase-Unique k rows u.1, has_key-erase (key r) k rows u.0)

  pub erase_absent : (k : ℕ) (rows : List R) → has_key k rows ≡ false → erase k rows ≡ rows
  erase_absent k [] h = refl
  erase_absent k (r ∷ rows) h = ground (arith, erase_absent k rows)

  pub lookup-erase :
      (j k : ℕ) (rows : List R) → lookup j (erase k rows) ≡ (if k == j then none else lookup j rows)
  lookup-erase j k [] = ground arith
  lookup-erase j k (r ∷ rows) = ground (arith, lookup-erase j k rows)

  pub count-erase :
      (p : R → Bool) (k : ℕ) (rows : List R) (r : R)
      → Unique rows
      → lookup k rows ≡ some r
      → count p (erase k rows) + bit (p r) ≡ count p rows
  count-erase p k [] r u h = cc
  count-erase p k (x ∷ rows) r u h = elim (Bool-cases (key x == k)) [
    | inl e ↦
        let k' : key x ≡ k = (==_iff (key x) k).0 e in
        rw (erase_absent k rows (rw (← k') u.0)) (ground arith)
    | inr e ↦ ground (arith, count-erase p k rows r u.1)
  ]

  module _ (k : ℕ) (f : R → R) (keeps : (r : R) → key (f r) ≡ key r) where
    pub has_key-update : (j : ℕ) (rows : List R) → has_key j (update k f rows) ≡ has_key j rows
    has_key-update j [] = refl
    has_key-update j (r ∷ rows) = ground (arith, has_key-update j rows, keeps r)

    pub update-Unique : (rows : List R) → Unique rows → Unique (update k f rows)
    update-Unique [] u = tt
    update-Unique (r ∷ rows) u =
        ground (arith, update-Unique rows u.1, has_key-update (key r) rows, keeps r)

    pub lookup-update :
        (j : ℕ) (rows : List R) (r : R)
        → lookup j rows ≡ some r
        → lookup j (update k f rows) ≡ some (if k == j then f r else r)
    lookup-update j [] r h = cc
    lookup-update j (x ∷ rows) r h = ground (arith, lookup-update j rows r, keeps x)

    pub lookup-update-none :
        (j : ℕ) (rows : List R) → lookup j rows ≡ none → lookup j (update k f rows) ≡ none
    lookup-update-none j [] h = refl
    lookup-update-none j (r ∷ rows) h = ground (arith, lookup-update-none j rows, keeps r)

  pub update_absent :
      (k : ℕ) (f : R → R) (rows : List R) → has_key k rows ≡ false → update k f rows ≡ rows
  update_absent k f [] h = refl
  update_absent k f (r ∷ rows) h = ground (arith, update_absent k f rows)

  pub update_missing :
      (k : ℕ) (f : R → R) (rows : List R) → lookup k rows ≡ none → update k f rows ≡ rows
  update_missing k f [] h = refl
  update_missing k f (r ∷ rows) h = ground (arith, update_missing k f rows)

  pub count-update :
      (p : R → Bool) (k : ℕ) (f : R → R) (rows : List R) (r : R)
      → Unique rows
      → lookup k rows ≡ some r
      → count p (update k f rows) + bit (p r) ≡ count p rows + bit (p (f r))
  count-update p k f [] r u h = cc
  count-update p k f (x ∷ rows) r u h = elim (Bool-cases (key x == k)) [
    | inl e ↦
        let k' : key x ≡ k = (==_iff (key x) k).0 e in
        rw (update_absent k f rows (rw (← k') u.0)) (ground arith)
    | inr e ↦ ground (arith, count-update p k f rows r u.1)
  ]

  pub count-update-none :
      (p : R → Bool) (k : ℕ) (f : R → R) (rows : List R)
      → lookup k rows ≡ none
      → count p (update k f rows) ≡ count p rows
  count-update-none p k f [] h = refl
  count-update-none p k f (x ∷ rows) h = ground (arith, count-update-none p k f rows)

  pub count-erase-none :
      (p : R → Bool) (k : ℕ) (rows : List R)
      → lookup k rows ≡ none
      → count p (erase k rows) ≡ count p rows
  count-erase-none p k [] h = refl
  count-erase-none p k (x ∷ rows) h = ground (arith, count-erase-none p k rows)

  pub count-pos :
      (p : R → Bool) (k : ℕ) (rows : List R) (r : R)
      → lookup k rows ≡ some r
      → bit (p r) ≤ count p rows
  count-pos p k [] r h = cc
  count-pos p k (x ∷ rows) r h = ground (arith, count-pos p k rows r)

  pub has_key-find :
      (p : R → Bool) (rows : List R) (r : R) → find p rows ≡ some r → has_key (key r) rows ≡ true
  has_key-find p [] r h = cc
  has_key-find p (x ∷ rows) r h = ground (arith, has_key-find p rows r)

  -- With unique keys, a row that a search finds is the row at its key.
  pub lookup-find :
      (p : R → Bool) (rows : List R) (r : R)
      → Unique rows
      → find p rows ≡ some r
      → lookup (key r) rows ≡ some r
  lookup-find p [] r u h = cc
  lookup-find p (x ∷ rows) r u h = elim (Bool-cases (p x)) [
    | inl hit ↦ ground arith
    | inr miss ↦
        let later : find p rows ≡ some r = rw miss at h in
        elim (Bool-cases (key x == key r)) [
          | inl same ↦
              let clash : has_key (key x) rows ≡ true =
                rw ((==_iff (key x) (key r)).0 same) (has_key-find p rows r later) in
              absurd (false≢true (sym u.0 ∙ clash))
          | inr other ↦ rw other (lookup-find p rows r u.1 later)
        ]
  ]
