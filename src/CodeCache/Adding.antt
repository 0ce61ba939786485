-- ===== src/CodeCache/Adding.antt =====
-- Adding a blob.
use java_profiler.Base.{
  ℕ, ◌+◌, ◌≤◌, ◌<◌, ◌≡◌, refl, Bool, true, false, ◌==◌, leb, if◌then◌else◌, List, arith, Bool-cases,
  inl, inr, ◌⊎◌, ==_refl,
}
use java_profiler.CodeCache.{
  CodeBlob, CodeCache, contains, expand, update_bounds, append_blob, printable, add,
}

-- A cache with one blob more.
pub record Added (c c' : CodeCache) (b : CodeBlob) : Type 0 where
  pub counted : c'.count ≡ c.count + 1
  pub room : c'.count ≤ c'.capacity
  pub kept : (i : ℕ) → i < c.count → c'.blobs i ≡ c.blobs i
  pub last : c'.blobs c.count ≡ b
  pub wider : (a : ℕ) → contains c a ≡ true → contains c' a ≡ true

append_blob-Added :
    (c d : CodeCache) (b : CodeBlob)
    → c.count < d.capacity
    → d.count ≡ c.count
    → d.blobs ≡ c.blobs
    → d.min_address ≡ c.min_address
    → d.max_address ≡ c.max_address
    → Added c (append_blob d b) b
unfolding append_blob contains
append_blob-Added c d b room count blobs low high = record {
  counted = rw count;
  room = rw count (omega arith);
  kept = λ i lt. let apart : (c.count == i) ≡ false = ground arith in rw (count, apart, blobs);
  last = rw (count, ==_refl c.count);
  wider = λ a e. rw (low, high) e;
}

roomy-Added :
    (c : CodeCache) (b : CodeBlob)
    → c.count ≤ c.capacity
    → 0 < c.capacity
    → Added c (append_blob (if leb c.capacity c.count then expand c else c) b) b
roomy-Added c b fits some_room = elim (Bool-cases (leb c.capacity c.count)) [
  | inl e ↦ rw e (
      append_blob-Added c (expand c) b (unfold expand in omega arith) (unfold expand in refl)
        (unfold expand in refl) (unfold expand in refl) (unfold expand in refl))
  | inr e ↦ rw e (append_blob-Added c c b (ground arith) refl refl refl refl)
]

update_bounds-contains :
    (c : CodeCache) (start end a : ℕ)
    → (contains c a ≡ true) ⊎ ((start ≤ a) × (a < end))
    → contains (update_bounds c start end) a ≡ true
unfolding contains update_bounds
update_bounds-contains c start end a h = ground arith

update_bounds-Added :
    (c d : CodeCache) (b : CodeBlob) (start end : ℕ)
    → Added c d b
    → Added c (update_bounds d start end) b
update_bounds-Added c d b start end t = record {
  counted = unfold update_bounds in t.counted;
  room = unfold update_bounds in t.room;
  kept = λ i lt. unfold update_bounds in t.kept i lt;
  last = unfold update_bounds in t.last;
  wider = λ a e. update_bounds-contains d start end a (inl (t.wider a e));
}

-- Adding a blob to a cache that has no more blobs than its capacity returns such a cache: it has this
-- blob, with its name made printable, behind the others, which stay, and contains every address that it
-- contained.
pub add-Added :
    (c : CodeCache) (start size : ℕ) (name : List ℕ) (bounds : Bool)
    → c.count ≤ c.capacity
    → 0 < c.capacity
    → Added c
        (add c start size name bounds)
        (record { start = start; end = start + size; name = printable name })
unfolding add
add-Added c start size name true fits some_room =
    let b : CodeBlob = record { start = start; end = start + size; name = printable name } in
    update_bounds-Added c _ b start (start + size) (roomy-Added c b fits some_room)
add-Added c start size name false fits some_room =
    let b : CodeBlob = record { start = start; end = start + size; name = printable name } in
    roomy-Added c b fits some_room

-- A cache contains every address of a blob that was added with the bounds to be updated.
pub add-contains :
    (c : CodeCache) (start size : ℕ) (name : List ℕ) (a : ℕ)
    → start ≤ a
    → a < start + size
    → contains (add c start size name true) a ≡ true
unfolding add
add-contains c start size name a lo hi =
    update_bounds-contains _ start (start + size) a (inr (lo, hi))
