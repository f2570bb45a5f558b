-- ===== src/Service/Trade/Concurrent/Slots.antt =====
-- The slots of the funding transfer under concurrent buys.
use outbound_api.Prelude.{
  ℕ, ◌+◌, ◌-◌, ◌≤◌, ◌<◌, ◌≡◌, ◌≢◌, refl, ap, List, [], ◌∷◌, ◌++◌, arith, length, length-append,
}
use outbound_api.Model.{Trade}
use outbound_api.Service.Trade.Concurrent.{
  Worker, first, second, other, Phase, checking, inserting, taking, committing, committed,
  rolled_back, Database, set_phase, moved, begun, Step, finds_none, finds_position, inserts,
  takes_slot, finds_no_slot, commits, fails, Reach, stays, then_step,
}

abbrev pub has_committed : Phase → ℕ
has_committed committed = 1
has_committed _ = 0

abbrev is_committing : Phase → ℕ
is_committing committing = 1
is_committing _ = 0

abbrev pub commits_of : {D : Type 0} → Database D → ℕ
commits_of s = has_committed (s.phase first) + has_committed (s.phase second)

-- At most one transaction holds the row, and then there is a slot.
record IsCounted {D : Type 0} (n k : ℕ) (s : Database D) : Type 0 where
  slots : s.remaining + commits_of s ≡ n
  rows : length s.trades ≡ k + commits_of s
  one_holder : is_committing (s.phase first) + is_committing (s.phase second) ≤ s.remaining
  alone : is_committing (s.phase first) + is_committing (s.phase second) ≤ 1

not_committed : (p : Phase) → p ≢ committed → has_committed p ≡ 0
not_committed committed h = absurd (h refl)
not_committed checking h = refl
not_committed inserting h = refl
not_committed taking h = refl
not_committed committing h = refl
not_committed rolled_back h = refl

not_committing : (p : Phase) → p ≢ committing → is_committing p ≡ 0
not_committing committing h = absurd (h refl)
not_committing checking h = refl
not_committing inserting h = refl
not_committing taking h = refl
not_committing committed h = refl
not_committing rolled_back h = refl

module _ {D : Type 0} (mine : Worker → Trade D) (n k : ℕ) where
  moved-IsCounted :
      (i : Worker) (q : Phase) (s : Database D)
      → has_committed (s.phase i) ≡ 0
      → has_committed q ≡ 0
      → is_committing q ≡ 0
      → IsCounted n k s
      → IsCounted n k (moved i q s)
  moved-IsCounted first q s h h' g c = record {
    slots = omega (arith, h, h', c.slots);
    rows = omega (arith, h, h', c.rows);
    one_holder = omega (arith, g, c.one_holder);
    alone = omega (arith, g, c.alone);
  }
  moved-IsCounted second q s h h' g c = record {
    slots = omega (arith, h, h', c.slots);
    rows = omega (arith, h, h', c.rows);
    one_holder = omega (arith, g, c.one_holder);
    alone = omega (arith, g, c.alone);
  }

  takes-IsCounted :
      (i : Worker) (s : Database D)
      → s.phase i ≡ taking
      → s.phase (other i) ≢ committing
      → 0 < s.remaining
      → IsCounted n k s
      → IsCounted n k (moved i committing s)
  takes-IsCounted first s e free slot c =
      let mine_open = ap has_committed e in
      let theirs = not_committing (s.phase second) free in
      record {
        slots = omega (arith, mine_open, c.slots);
        rows = omega (arith, mine_open, c.rows);
        one_holder = omega (arith, theirs);
        alone = omega (arith, theirs);
      }
  takes-IsCounted second s e free slot c =
      let mine_open = ap has_committed e in
      let theirs = not_committing (s.phase first) free in
      record {
        slots = omega (arith, mine_open, c.slots);
        rows = omega (arith, mine_open, c.rows);
        one_holder = omega (arith, theirs);
        alone = omega (arith, theirs);
      }

  commits-IsCounted :
      (i : Worker) (s : Database D)
      → s.phase i ≡ committing
      → IsCounted n k s
      → IsCounted n k (record {
        trades = s.trades ++ (mine i ∷ []);
        remaining = s.remaining - 1;
        phase = set_phase i committed s.phase;
      })
  commits-IsCounted first s e c =
      let held = ap is_committing e in
      let mine_open = ap has_committed e in
      record {
        slots = omega (arith, held, mine_open, c.slots, c.one_holder);
        rows = rw (length-append s.trades (mine first ∷ [])) (omega (arith, mine_open, c.rows));
        one_holder = omega (arith, held, c.alone);
        alone = omega (arith, held, c.alone);
      }
  commits-IsCounted second s e c =
      let held = ap is_committing e in
      let mine_open = ap has_committed e in
      record {
        slots = omega (arith, held, mine_open, c.slots, c.one_holder);
        rows = rw (length-append s.trades (mine second ∷ [])) (omega (arith, mine_open, c.rows));
        one_holder = omega (arith, held, c.alone);
        alone = omega (arith, held, c.alone);
      }

  Step-IsCounted : {s t : Database D} → Step mine s t → IsCounted n k s → IsCounted n k t
  Step-IsCounted {s} (finds_none i e h) =
      moved-IsCounted i inserting s (ap has_committed e) refl refl
  Step-IsCounted {s} (finds_position i e h) =
      moved-IsCounted i rolled_back s (ap has_committed e) refl refl
  Step-IsCounted {s} (inserts i e) = moved-IsCounted i taking s (ap has_committed e) refl refl
  Step-IsCounted {s} (takes_slot i e free slot) = takes-IsCounted i s e free slot
  Step-IsCounted {s} (finds_no_slot i e free none_left) =
      moved-IsCounted i rolled_back s (ap has_committed e) refl refl
  Step-IsCounted {s} (commits i e) = commits-IsCounted i s e
  Step-IsCounted {s} (fails i h) =
      moved-IsCounted i rolled_back s (not_committed (s.phase i) h) refl refl

  Reach-IsCounted : {s t : Database D} → Reach mine s t → IsCounted n k s → IsCounted n k t
  Reach-IsCounted stays c = c
  Reach-IsCounted (then_step r step) c = Step-IsCounted step (Reach-IsCounted r c)

-- However the transactions of two buys interleave and fail, no slot is lost and none is sold twice:
-- in every reachable state the slots that are left and the buys that were committed add up to the
-- slots at the start, and the table has one new row for each of these buys.
pub slots_kept :
    {D : Type 0} (mine : Worker → Trade D) (trades : List (Trade D)) (n : ℕ) {s : Database D}
    → Reach mine (begun trades n) s
    → (s.remaining + commits_of s ≡ n) × (length s.trades ≡ length trades + commits_of s)
slots_kept mine trades n {s} r =
    let c = Reach-IsCounted mine n (length trades) r (record {
      slots = omega arith;
      rows = omega arith;
      one_holder = omega arith;
      alone = omega arith;
    }) in
    (c.slots, c.rows)
