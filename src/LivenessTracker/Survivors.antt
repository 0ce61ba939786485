-- ===== src/LivenessTracker/Survivors.antt =====
-- `cleanup_table` against a filter of the list of entries.
use java_profiler.Base.{
  ℕ, zero, suc, ◌+◌, ◌≤◌, ◌<◌, Bool, true, false, ◌&&◌, not, ◌==◌, ==_refl, if◌then◌else◌, update,
  List, [], ◌∷◌, ◌++◌, append-nil, append_assoc, ◌≡◌, refl, sym, ap, ◌∙◌, arith, Bool-cases, inl,
  inr,
}
use java_profiler.Base.Segments.{segment, segment_ext, segment_last}
use java_profiler.LivenessTracker.{
  TrackingEntry, LivenessTracker, Sweep, aged, cleared, survives, moved_down, grow_older,
  sweep_entry, sweep, cleanup_table,
}

module _ {E : Type 0} (is_live : ℕ → Bool) (current target : ℕ) where
  abbrev older : TrackingEntry E → TrackingEntry E
  older e = record e { age = aged e.age current target }

  -- The entries whose objects live, in their order, with their ages moved on.
  abbrev pub survivors : List (TrackingEntry E) → List (TrackingEntry E)
  survivors [] = []
  survivors (e ∷ es) =
      let rest = survivors es in if survives is_live e.ref then older e ∷ rest else rest

  abbrev one : TrackingEntry E → List (TrackingEntry E)
  one e = if survives is_live e.ref then older e ∷ [] else []

  one_live : (e : TrackingEntry E) → survives is_live e.ref ≡ true → one e ≡ older e ∷ []
  one_live e q = rw q

  one_dead : (e : TrackingEntry E) → survives is_live e.ref ≡ false → one e ≡ []
  one_dead e q = rw q

  survivors-cons :
      (e : TrackingEntry E) (es : List (TrackingEntry E))
      → survivors (e ∷ es) ≡ one e ++ survivors es
  survivors-cons e es = elim (Bool-cases (survives is_live e.ref)) [ inl q ↦ rw q | inr q ↦ rw q ]

  -- What a round keeps below the entries to come, and leaves above.
  record Round (i : ℕ) (s s' : Sweep E) : Type 0 where
    bound : s'.newsz ≤ i + 1
    kept : segment s'.table 0 s'.newsz ≡ segment s.table 0 s.newsz ++ one (s.table i)
    above : (j : ℕ) → i < j → s'.table j ≡ s.table j

  module _ (table : ℕ → TrackingEntry E) (i n : ℕ) (le : n ≤ i) where
    abbrev kept_table : ℕ → TrackingEntry E
    kept_table = grow_older n current target (moved_down i n table)

    moved_down-here : moved_down i n table n ≡ table i
    unfolding moved_down
    moved_down-here = elim (Bool-cases (n == i)) [
      | inl q ↦ let same : n ≡ i = ground arith in rw (q, same)
      | inr q ↦ let other : (i == n) ≡ false = ground arith in rw (q, other, ==_refl n)
    ]

    moved_down-other :
        (j : ℕ) → (n == j) ≡ false → (i == j) ≡ false → moved_down i n table j ≡ table j
    unfolding moved_down
    moved_down-other j a b = elim (Bool-cases (n == i)) [ inl q ↦ rw q | inr q ↦ rw (q, a, b) ]

    kept-here : kept_table n ≡ older (table i)
    unfolding grow_older
    kept-here = rw (==_refl n, moved_down-here)

    kept-other : (j : ℕ) → (n == j) ≡ false → (i == j) ≡ false → kept_table j ≡ table j
    unfolding grow_older
    kept-other j a b = rw a (moved_down-other j a b)

    kept-segment : segment kept_table 0 (n + 1) ≡ segment table 0 n ++ (older (table i) ∷ [])
    kept-segment =
        let count : n + 1 ≡ suc n = omega arith in
        let below =
          segment_ext kept_table table 0 n (λ j a b. kept-other j (ground arith) (ground arith)) in
        let start : 0 + n ≡ n = omega arith in
        rw count (segment_last kept_table 0 n ∙ rw (below, start, kept-here) refl)

  sweep_entry-Round :
      (i : ℕ) (s : Sweep E) → s.newsz ≤ i → Round i s (sweep_entry is_live current target i s)
  unfolding sweep_entry
  sweep_entry-Round i s le = elim (Bool-cases (survives is_live (s.table i).ref)) [
    | inl q ↦ rw q (record {
      bound = omega arith;
      kept =
          kept-segment s.table i s.newsz le
          ∙ ap (λ t. segment s.table 0 s.newsz ++ t) (sym (one_live (s.table i) q));
      above = λ j lt. kept-other s.table i s.newsz le j (ground arith) (ground arith);
    })
    | inr q ↦ rw q (record {
      bound = omega arith;
      kept =
          segment_ext (update s.table i (cleared (s.table i))) s.table 0 s.newsz
            (λ j a b. let other : (i == j) ≡ false = ground arith in rw other)
          ∙ sym (append-nil (segment s.table 0 s.newsz))
          ∙ ap (λ t. segment s.table 0 s.newsz ++ t) (sym (one_dead (s.table i) q));
      above = λ j lt. let other : (i == j) ≡ false = ground arith in rw other;
    })
  ]

  sweep-survivors :
      (left i : ℕ) (s : Sweep E)
      → s.newsz ≤ i
      → (segment
            (sweep is_live current target left i s).table
            0
            (sweep is_live current target left i s).newsz
          ≡ segment s.table 0 s.newsz ++ survivors (segment s.table i left))
        × ((sweep is_live current target left i s).newsz ≤ i + left)
  unfolding sweep
  sweep-survivors zero i s le = (sym (append-nil (segment s.table 0 s.newsz)), omega arith)
  sweep-survivors (suc left) i s le =
      let s' = sweep_entry is_live current target i s in
      let r = sweep_entry-Round i s le in
      let (rest, bound) = sweep-survivors left (i + 1) s' r.bound in
      let ahead = segment_ext s'.table s.table (i + 1) left (λ j a b. r.above j (omega arith)) in
      (
        rest
            ∙ rw (ahead, r.kept)
                (append_assoc (segment s.table 0 s.newsz) (one (s.table i))
                    (survivors (segment s.table (i + 1) left))
                  ∙ ap (λ t. segment s.table 0 s.newsz ++ t)
                      (sym (survivors-cons (s.table i) (segment s.table (i + 1) left)))),
        omega arith,
      )

-- The entries of the table, in their order.
abbrev pub entries : {E D : Type 0} → LivenessTracker E D → List (TrackingEntry E)
entries t = segment t.table 0 t.table_size

-- A clean-up that is forced, or that follows a collection, keeps just the entries whose objects live, in
-- their order, moves their ages on by the collections since the last clean-up, and marks these as seen.
pub cleanup_table-survivors :
    {E D : Type 0} (forced : Bool) (is_live : ℕ → Bool) (t : LivenessTracker E D)
    → (t.gc_epoch == t.last_gc_epoch && not forced) ≡ false
    → (entries (cleanup_table forced is_live t)
        ≡ survivors is_live t.last_gc_epoch t.gc_epoch (entries t))
      × ((cleanup_table forced is_live t).last_gc_epoch ≡ t.gc_epoch)
      × ((cleanup_table forced is_live t).table_size ≤ t.table_size)
unfolding cleanup_table
cleanup_table-survivors forced is_live t due =
    let start : Sweep _ = record { table = t.table; newsz = 0; weak_refs = t.weak_refs } in
    let (same, bound) =
      sweep-survivors is_live t.last_gc_epoch t.gc_epoch t.table_size 0 start (omega arith) in
    rw due (same, refl, omega arith)
