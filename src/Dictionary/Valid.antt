-- ===== src/Dictionary/Valid.antt =====
-- Well-formed dictionaries, and the two writes of an insertion.
use java_profiler.Base.{
  ℕ, ◌+◌, ◌*◌, ◌^◌, ◌<◌, ◌≡◌, refl, ◌≢◌, List, Option, none, some, arith, update, inl, inr,
  Bool-cases, ◌==◌, ◌&&◌, if◌then◌else◌,
}
use java_profiler.Dictionary.Key.{allocate_key}
use java_profiler.Dictionary.Row.{IsFilled}
use java_profiler.Dictionary.Walk.{IsLinked}
use java_profiler.Dictionary.{
  cells, table_capacity, empty_row, Dictionary, row_at, store_key, add_table, new,
}

-- Tables are numbered in the order of allocation, 384 numbers to each; links lead to later tables,
-- and leave full rows only; a row is filled from the left.
pub record IsValid (d : Dictionary) : Type 0 where
  pub rooted : 0 < d.allocated
  pub linked : IsLinked d
  pub numbered : (t : ℕ) → t < d.allocated → (d.tables t).base_index ≡ 1 + table_capacity * t
  pub next_base : d.base_index + table_capacity ≡ 1 + table_capacity * d.allocated
  pub filled : (t r : ℕ) → IsFilled (row_at d t r).keys
  pub full :
      (t r t' c : ℕ) → (row_at d t r).next ≡ some t' → c < cells → (row_at d t r).keys c ≢ none

-- A constructed dictionary is valid, and so is a cleared one.
pub new-IsValid : IsValid new
unfolding new
new-IsValid = record {
  rooted = omega arith;
  linked = λ t r t' e. cc;
  numbered = λ t lt. omega arith;
  next_base = omega arith;
  filled = λ t r k e. refl;
  full = λ t r t' c e. cc;
}

module _ (d : Dictionary) (t₀ r₀ c₀ : ℕ) (key : List ℕ) where
  abbrev stored_keys : ℕ → Option (List ℕ)
  stored_keys = update (row_at d t₀ r₀).keys c₀ (some (allocate_key key))

  pub store_key-keys :
      (t r : ℕ)
      → (row_at (store_key d t₀ r₀ c₀ key) t r).keys
        ≡ (if t₀ == t && r₀ == r then stored_keys else (row_at d t r).keys)
  unfolding store_key
  store_key-keys t r = ground arith

  pub store_key-next :
      (t r : ℕ) → (row_at (store_key d t₀ r₀ c₀ key) t r).next ≡ (row_at d t r).next
  unfolding store_key
  store_key-next t r = ground arith

  pub store_key-base :
      (t : ℕ) → ((store_key d t₀ r₀ c₀ key).tables t).base_index ≡ (d.tables t).base_index
  unfolding store_key
  store_key-base t = ground arith

  update-IsFilled :
      (keys : ℕ → Option (List ℕ)) (a : Option (List ℕ))
      → IsFilled keys
      → a ≢ none
      → ((k : ℕ) → k < c₀ → keys k ≢ none)
      → IsFilled (update keys c₀ a)
  update-IsFilled keys a filled set before k e = ground (arith, filled k, before k)

  pub store_key-IsValid :
      IsValid d
      → ((k : ℕ) → k < c₀ → (row_at d t₀ r₀).keys k ≢ none)
      → IsValid (store_key d t₀ r₀ c₀ key)
  store_key-IsValid v before = record {
    rooted = unfold store_key in v.rooted;
    linked = λ t r t' e. unfold store_key in v.linked t r t' (rw store_key-next at e);
    numbered = λ t lt. rw store_key-base (v.numbered t (unfold store_key in lt));
    next_base = unfold store_key in v.next_base;
    filled = λ t r. elim (Bool-cases (t₀ == t && r₀ == r)) [
      | inl e ↦
          rw (store_key-keys, e)
            (update-IsFilled _ (some (allocate_key key)) (v.filled t₀ r₀) (λ z. cc) before)
      | inr e ↦ rw (store_key-keys, e) (v.filled t r)
    ];
    full = λ t r t' c e lt.
        let old = v.full t r t' c (rw store_key-next at e) lt in
        elim (Bool-cases (t₀ == t && r₀ == r)) [
          | inl e ↦ rw (store_key-keys, e) (λ z. ground arith)
          | inr e ↦ rw (store_key-keys, e) old
        ];
  }

module _ (d : Dictionary) (t₀ r₀ : ℕ) where
  abbrev added : Dictionary
  added = add_table d t₀ r₀

  pub add_table-new : (r : ℕ) → row_at added d.allocated r ≡ empty_row
  unfolding add_table
  add_table-new r = ground arith

  pub add_table-keys : (t r : ℕ) → d.allocated ≢ t → (row_at added t r).keys ≡ (row_at d t r).keys
  unfolding add_table
  add_table-keys t r lt = ground arith

  pub add_table-next :
      (t r : ℕ)
      → d.allocated ≢ t
      → (row_at added t r).next
        ≡ (if t₀ == t && r₀ == r then some d.allocated else (row_at d t r).next)
  unfolding add_table
  add_table-next t r lt = ground arith

  pub add_table-base :
      (t : ℕ) → d.allocated ≢ t → (added.tables t).base_index ≡ (d.tables t).base_index
  unfolding add_table
  add_table-base t lt = ground arith

  pub add_table-base_new :
      IsValid d
      → d.allocated < 2 ^ 23
      → (added.tables d.allocated).base_index ≡ 1 + table_capacity * d.allocated
  unfolding add_table
  add_table-base_new v few = ground (arith, v.next_base)

  pub add_table-IsValid :
      IsValid d
      → t₀ < d.allocated
      → ((k : ℕ) → k < cells → (row_at d t₀ r₀).keys k ≢ none)
      → d.allocated < 2 ^ 23
      → IsValid added
  add_table-IsValid v lt₀ whole few = record {
    rooted = unfold add_table in omega arith;
    linked = λ t r t' e. elim (Bool-cases (d.allocated == t)) [
      | inl z ↦ let q : d.allocated ≡ t = ground arith in cc (new_next t r q, e)
      | inr z ↦
          let q : d.allocated ≢ t = ground arith in
          let e' = rw (add_table-next t r q) at e in
          let old = v.linked t r t' in unfold add_table in ground (arith, old)
    ];
    numbered = λ t lt. elim (Bool-cases (d.allocated == t)) [
      | inl z ↦ let q : d.allocated ≡ t = ground arith in rw (← q) (add_table-base_new v few)
      | inr z ↦
          let q : d.allocated ≢ t = ground arith in
          rw (add_table-base t q) (v.numbered t (unfold add_table in ground (arith, lt)))
    ];
    next_base = unfold add_table in ground (arith, v.next_base);
    filled = λ t r. elim (Bool-cases (d.allocated == t)) [
      | inl z ↦ let q : d.allocated ≡ t = ground arith in rw (← q, add_table-new) (λ k _. refl)
      | inr z ↦ let q : d.allocated ≢ t = ground arith in rw (add_table-keys t r q) (v.filled t r)
    ];
    full = λ t r t' c e lt. elim (Bool-cases (d.allocated == t)) [
      | inl z ↦ let q : d.allocated ≡ t = ground arith in absurd (cc (new_next t r q, e))
      | inr z ↦
          let q : d.allocated ≢ t = ground arith in
          let e' = rw (add_table-next t r q) at e in
          rw (add_table-keys t r q) (elim (Bool-cases (t₀ == t && r₀ == r)) [
            | inl y ↦
                let qt : t₀ ≡ t = ground arith in
                let qr : r₀ ≡ r = ground arith in rw (← qt, ← qr) (whole c lt)
            | inr y ↦ v.full t r t' c (rw y at e') lt
          ])
    ];
  }
    where
      new_next : (t r : ℕ) → d.allocated ≡ t → (row_at added t r).next ≡ none
      new_next t r q = rw (← q, add_table-new)
