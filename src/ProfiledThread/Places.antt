-- ===== src/ProfiledThread/Places.antt =====
-- The steps of the buffer that keep the ownership: a place is taken, given back, or added.
use java_profiler.Base.{
  update-elim, update-here, update-there, ℕ, ◌+◌, ◌≤◌, ◌<◌, ◌==◌, update, Option, none, some, ◌≡◌,
  ◌≢◌, ◌⊎◌, refl, sym, ap, ◌∙◌, arith, Bool-cases, inl, inr,
}
use java_profiler.ProfiledThread.{ProfiledThread}
use java_profiler.ProfiledThread.Owners.{some_same, never_there, IsLive, IsFree, Owned, below_apart}

module _ {base from to next buffer_length : ℕ} {specific : ℕ → Option ℕ}
    {heap : ℕ → Option ProfiledThread} {buffer : ℕ → Option ℕ}
    (o : Owned base from to specific heap next buffer buffer_length) where
  -- The first place is left out.
  pub next-Owned : Owned base (from + 1) to specific heap next buffer buffer_length
  next-Owned = record {
    live = o.live;
    apart = o.apart;
    owned_unkept = λ i a p e ge. o.owned_unkept i a p e (omega arith);
    kept = λ p ge. o.kept p (omega arith);
    placed = o.placed;
    below = o.below;
    room = o.room;
  }

  -- Its object is free.
  pub next_place-IsFree : from < to → IsFree base (from + 1) to specific (base + from)
  next_place-IsFree lt = record {
    unowned = λ i e. o.owned_unkept i (base + from) from e (omega arith) lt refl;
    unkept = λ p ge lt' same. absurd (omega arith);
  }

  -- An object is written, and stays where it is.
  pub write-Owned :
      (a : ℕ) (t u : ProfiledThread)
      → heap a ≡ some t
      → (u.buffer_pos ≡ t.buffer_pos) ⊎ (u.buffer_pos ≡ none)
      → Owned base from to specific (update heap a (some u)) next buffer buffer_length
  write-Owned a t u at same_place =
      let stays : (b : ℕ) → IsLive heap b → IsLive (update heap a (some u)) b =
        λ b (v, e). elim (Bool-cases (a == b)) [ inl h ↦ (u, rw h refl) | inr h ↦ (v, rw h e) ] in
      record {
        live = λ i b e. stays b (o.live i b e);
        apart = o.apart;
        owned_unkept = o.owned_unkept;
        kept = λ p ge lt. let (at, l) = o.kept p ge lt in (at, stays (base + p) l);
        placed = λ b p v e pos. elim (update-elim heap a (some u) b e) [
          | inl (here, same) ↦
              let mine : u.buffer_pos ≡ some p =
                ap (λ (x : ProfiledThread). x.buffer_pos) (some_same same) ∙ pos in
              elim same_place [
                | inl kept ↦ rw (← here) (o.placed a p t at (sym kept ∙ mine))
                | inr gone ↦ absurd (never_there (sym gone ∙ mine))
              ]
          | inr (_, old) ↦ o.placed b p v old pos
        ];
        below = λ b v e. elim (update-elim heap a (some u) b e) [
          | inl (here, _) ↦ rw (← here) (o.below a t at)
          | inr (_, old) ↦ o.below b v old
        ];
        room = o.room;
      }

  -- A place outside of those that keep an object is set to NULL.
  pub unplace-Owned :
      (pos : ℕ)
      → ((p : ℕ) → from ≤ p → p < to → pos ≢ p)
      → Owned base from to specific heap next (update buffer pos none) buffer_length
  unplace-Owned pos other = record {
    live = o.live;
    apart = o.apart;
    owned_unkept = o.owned_unkept;
    kept = λ p ge lt.
        let (at, l) = o.kept p ge lt in (update-there buffer pos none p (other p ge lt) ∙ at, l);
    placed = o.placed;
    below = o.below;
    room = o.room;
  }

-- A new object gets the next place of the buffer that is built.
pub build-Owned :
    {base i : ℕ} {specific : ℕ → Option ℕ} {heap : ℕ → Option ProfiledThread}
    {buffer : ℕ → Option ℕ}
    → Owned base 0 i specific heap (base + i) buffer i
    → (t : ProfiledThread) → t.buffer_pos ≡ some i
    → Owned base 0
        (i + 1)
        specific
        (update heap (base + i) (some t))
        (base + (i + 1))
        (update buffer i (some (base + i)))
        (i + 1)
build-Owned {base} {i} {specific} {heap} {buffer} o t at =
    let stays : (b : ℕ) → IsLive heap b → IsLive (update heap (base + i) (some t)) b =
      λ b (u, e). (u, update-there heap (base + i) (some t) b (below_apart (o.below b u e)) ∙ e) in
    record {
      live = λ j b e. stays b (o.live j b e);
      apart = o.apart;
      owned_unkept = λ j b p e ge lt same.
          let (u, l) = o.live j b e in
          let high = o.below b u l in o.owned_unkept j b p e ge (omega (arith, high, same)) same;
      kept = λ p ge lt. elim (Bool-cases (i == p)) [
        | inl h ↦
            let here : i ≡ p = ground (arith, h) in
            rw (← here)
              (update-here buffer i (some (base + i)), (t, update-here heap (base + i) (some t)))
        | inr h ↦ let (e, l) = o.kept p ge (ground (arith, h)) in (rw h e, stays (base + p) l)
      ];
      placed = λ b p u e pos. elim (update-elim heap (base + i) (some t) b e) [
        | inl (here, same) ↦
            let mine : i ≡ p =
              some_same
                (sym at ∙ ap (λ (x : ProfiledThread). x.buffer_pos) (some_same same) ∙ pos) in
            (omega (arith, here, mine), omega (arith, mine))
        | inr (_, old) ↦ let (e, lt) = o.placed b p u old pos in (e, omega (arith, lt))
      ];
      below = λ b u e. elim (update-elim heap (base + i) (some t) b e) [
        | inl (here, _) ↦ omega (arith, here)
        | inr (_, old) ↦ omega (arith, o.below b u old)
      ];
      room = omega arith;
    }
