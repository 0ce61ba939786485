-- ===== src/ProfiledThread/Owners.antt =====
-- Which objects are there, and who has them: the steps that keep the ownership.
use java_profiler.Base.{
  update-elim, update-there, ℕ, ◌+◌, ◌≤◌, ◌<◌, update, Option, none, some, ◌≡◌, ◌≢◌, sym, ap, ◌∙◌,
  arith, inl, inr,
}
use java_profiler.ProfiledThread.{ProfiledThread}

module _ {ℓ} {A : Type ℓ} where
  pub some_same : {a b : A} → some a ≡ some b → a ≡ b
  some_same e = cc

  pub never_there : {a : A} → none ≢ some a
  never_there e = absurd (cc)

pub below_apart : {n m : ℕ} → m < n → n ≢ m
below_apart lt same = absurd (omega (arith, lt, same))

abbrev pub IsLive : (ℕ → Option ProfiledThread) → ℕ → Type 0
IsLive heap a = (t : ProfiledThread) × (heap a ≡ some t)

-- No thread of the system has the object at `a`, and no place of the buffer keeps it for one: the places
-- from `from` up to `to` keep the objects from `base` on.
pub record IsFree (base from to : ℕ) (specific : ℕ → Option ℕ) (a : ℕ) : Type 0 where
  pub unowned : (i : ℕ) → specific i ≢ some a
  pub unkept : (p : ℕ) → from ≤ p → p < to → a ≢ base + p

pub record Owned (base from to : ℕ) (specific : ℕ → Option ℕ) (heap : ℕ → Option ProfiledThread)
    (next : ℕ) (buffer : ℕ → Option ℕ) (buffer_length : ℕ) : Type 0 where
  pub live : (i a : ℕ) → specific i ≡ some a → IsLive heap a
  pub apart : (i j a : ℕ) → specific i ≡ some a → specific j ≡ some a → i ≡ j
  pub owned_unkept : (i a p : ℕ) → specific i ≡ some a → from ≤ p → p < to → a ≢ base + p
  pub kept : (p : ℕ) → from ≤ p → p < to → (buffer p ≡ some (base + p)) × IsLive heap (base + p)
  pub placed :
      (a p : ℕ) (t : ProfiledThread)
      → heap a ≡ some t
      → t.buffer_pos ≡ some p
      → (a ≡ base + p) × (p < buffer_length)
  pub below : (a : ℕ) (t : ProfiledThread) → heap a ≡ some t → a < next
  pub room : to ≤ buffer_length

module _ {base from to next buffer_length : ℕ} {specific : ℕ → Option ℕ}
    {heap : ℕ → Option ProfiledThread} {buffer : ℕ → Option ℕ}
    (o : Owned base from to specific heap next buffer buffer_length) where
  -- A thread of the system gets a free object.
  pub assign-Owned :
      (thread a : ℕ)
      → IsLive heap a
      → IsFree base from to specific a
      → Owned base from to (update specific thread (some a)) heap next buffer buffer_length
  assign-Owned thread a l f = record {
    live = λ i b e. elim (update-elim specific thread (some a) i e) [
      | inl (_, same) ↦ rw (← some_same same) l
      | inr (_, old) ↦ o.live i b old
    ];
    apart = λ i j b e e'. elim (update-elim specific thread (some a) i e) [
      | inl (at, same) ↦ elim (update-elim specific thread (some a) j e') [
        | inl (at', _) ↦ sym at ∙ at'
        | inr (_, old) ↦ absurd (f.unowned j (old ∙ sym same))
      ]
      | inr (_, old) ↦ elim (update-elim specific thread (some a) j e') [
        | inl (_, same) ↦ absurd (f.unowned i (old ∙ sym same))
        | inr (_, old') ↦ o.apart i j b old old'
      ]
    ];
    owned_unkept = λ i b p e ge lt. elim (update-elim specific thread (some a) i e) [
      | inl (_, same) ↦ λ there. f.unkept p ge lt (some_same same ∙ there)
      | inr (_, old) ↦ o.owned_unkept i b p old ge lt
    ];
    kept = o.kept;
    placed = o.placed;
    below = o.below;
    room = o.room;
  }

  -- A thread of the system gives its object up.
  pub clear-Owned :
      (thread : ℕ) → Owned base from to (update specific thread none) heap next buffer buffer_length
  clear-Owned thread =
      let held : (i b : ℕ) → update specific thread none i ≡ some b → specific i ≡ some b = λ i b e.
        elim (update-elim specific thread none i e) [
          | inl (_, gone) ↦ absurd (never_there gone)
          | inr (_, old) ↦ old
        ] in
      record {
        live = λ i b e. o.live i b (held i b e);
        apart = λ i j b e e'. o.apart i j b (held i b e) (held j b e');
        owned_unkept = λ i b p e. o.owned_unkept i b p (held i b e);
        kept = o.kept;
        placed = o.placed;
        below = o.below;
        room = o.room;
      }

  -- The object that a thread of the system gave up is free.
  pub clear-IsFree :
      (thread a : ℕ)
      → specific thread ≡ some a
      → IsFree base from to (update specific thread none) a
  clear-IsFree thread a e = record {
    unowned = λ i h. elim (update-elim specific thread none i h) [
      | inl (_, gone) ↦ never_there gone
      | inr (other, old) ↦ other (o.apart thread i a e old)
    ];
    unkept = λ p. o.owned_unkept thread a p e;
  }

  -- A free object is deleted.
  pub delete-Owned :
      (a : ℕ)
      → IsFree base from to specific a
      → Owned base from to specific (update heap a none) next buffer buffer_length
  delete-Owned a f =
      let there : (b : ℕ) (t : ProfiledThread) → update heap a none b ≡ some t → heap b ≡ some t =
        λ b t e. elim (update-elim heap a none b e) [
          | inl (_, gone) ↦ absurd (never_there gone)
          | inr (_, old) ↦ old
        ] in
      let stays : (b : ℕ) → a ≢ b → IsLive heap b → IsLive (update heap a none) b =
        λ b other (t, e). (t, update-there heap a none b other ∙ e) in
      record {
        live = λ i b e. stays b (λ same. f.unowned i (e ∙ ap some (sym same))) (o.live i b e);
        apart = o.apart;
        owned_unkept = o.owned_unkept;
        kept =
            λ p ge lt. let (at, l) = o.kept p ge lt in (at, stays (base + p) (f.unkept p ge lt) l);
        placed = λ b p t e. o.placed b p t (there b t e);
        below = λ b t e. o.below b t (there b t e);
        room = o.room;
      }

  -- A new object outside of the buffer.
  pub allocate-Owned :
      (t : ProfiledThread)
      → t.buffer_pos ≡ none
      → Owned base from to specific (update heap next (some t)) (next + 1) buffer buffer_length
  allocate-Owned t outside =
      let stays : (b : ℕ) → IsLive heap b → IsLive (update heap next (some t)) b = λ b (u, e).
        (u, update-there heap next (some t) b (λ same. below_apart (o.below b u e) same) ∙ e) in
      record {
        live = λ i b e. stays b (o.live i b e);
        apart = o.apart;
        owned_unkept = o.owned_unkept;
        kept = λ p ge lt. let (at, l) = o.kept p ge lt in (at, stays (base + p) l);
        placed = λ b p u e pos. elim (update-elim heap next (some t) b e) [
          | inl (_, same) ↦ absurd (
              never_there
                (sym outside ∙ ap (λ (x : ProfiledThread). x.buffer_pos) (some_same same) ∙ pos))
          | inr (_, old) ↦ o.placed b p u old pos
        ];
        below = λ b u e. elim (update-elim heap next (some t) b e) [
          | inl (at, _) ↦ omega (arith, at)
          | inr (_, old) ↦ omega (arith, o.below b u old)
        ];
        room = o.room;
      }

  -- An address that no object has had is free.
  pub next-IsFree : IsFree base from to specific next
  next-IsFree = record {
    unowned = λ i e. let (t, l) = o.live i next e in absurd (omega (arith, o.below next t l));
    unkept = λ p ge lt same.
        let (_, (t, l)) = o.kept p ge lt in below_apart (o.below (base + p) t l) same;
  }
