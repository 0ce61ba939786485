-- ===== src/Contexts/Writing.antt =====
-- What threads see of the writes of `setContext`.
use java_profiler.Base.{
  ℕ, ◌%◌, ◌<◌, ◌≡◌, refl, ap, ◌∙◌, bit_xor, true, false, ◌==◌, leb, some, arith, Bool-cases, inl,
  inr, ◌⊎◌, ==_refl, lt→ltb, update,
}
use java_profiler.Contexts.Pages.{initialize-get}
use java_profiler.Contexts.{
  page_size, Context, Contexts, empty, page_index, checked, get_in, get, page_or_zero, initialize,
  get_page, write_in, write_slot, write_span, write_root, write_checksum, set_context,
}

-- What is stored for a thread, whole or not.
abbrev pub slot : Contexts → ℕ → Context
slot c tid = page_or_zero (c.pages (page_index tid)) (tid % page_size)

-- The page of a thread is inside the array and there.
pub record HasPage (tid : ℕ) (c : Contexts) : Type 0 where
  pub inside : page_index tid < c.max_pages
  pub page : ℕ → Context
  pub is_there : c.pages (page_index tid) ≡ some page

get_page-HasPage :
    (tid : ℕ) (c : Contexts) → page_index tid < c.max_pages → HasPage tid (get_page c tid).1
unfolding get_page initialize
get_page-HasPage tid c lt =
    let inside : leb c.max_pages (page_index tid) ≡ false = ground arith in
    rw inside (record {
      inside = lt;
      page = page_or_zero (c.pages (page_index tid));
      is_there = rw (==_refl (page_index tid)) refl;
    })

get_page-slot : (tid : ℕ) (c : Contexts) → slot (get_page c tid).1 tid ≡ slot c tid
unfolding get_page initialize
get_page-slot tid c = elim (Bool-cases (leb c.max_pages (page_index tid))) [
  | inl e ↦ rw e refl
  | inr e ↦ rw (e, ==_refl (page_index tid)) (unfold page_or_zero in refl)
]

-- A write where the page is there.
module _ (write : Context → Context) (tid : ℕ) (c : Contexts) (h : HasPage tid c) where
  write_slot-HasPage : HasPage tid (write_slot write tid c)
  unfolding write_slot write_in
  write_slot-HasPage = record {
    inside = h.inside;
    page = update h.page (tid % page_size) (write (h.page (tid % page_size)));
    is_there = rw (==_refl (page_index tid), h.is_there) refl;
  }

  write_slot-slot : slot (write_slot write tid c) tid ≡ write (slot c tid)
  unfolding write_slot write_in page_or_zero
  write_slot-slot = rw (==_refl (page_index tid), h.is_there) (rw (==_refl (tid % page_size)) refl)

  write_slot-others :
      (other : ℕ) → (tid == other) ≡ false → get (write_slot write tid c) other ≡ get c other
  unfolding write_slot get
  write_slot-others other apart = elim (Bool-cases (page_index tid == page_index other)) [
    | inr q ↦ rw q refl
    | inl q ↦
        let same : page_index other ≡ page_index tid = ground arith in
        let differs : (tid % page_size == other % page_size) ≡ false = ground arith in
        rw (same, ==_refl (page_index tid), h.is_there) (unfold write_in get_in in rw differs refl)
  ]

-- A thread gets what is stored for it, if the page is there and the checksum fits.
module _ (tid : ℕ) (c : Contexts) (h : HasPage tid c) where
  get-checked : get c tid ≡ checked (slot c tid)
  unfolding get get_in page_or_zero
  get-checked = rw (lt→ltb _ _ h.inside, h.is_there) refl

  whole_get :
      (x : Context) → slot c tid ≡ x → bit_xor x.span_id x.root_span_id ≡ x.checksum → get c tid ≡ x
  whole_get x e fits =
      let test : (bit_xor x.span_id x.root_span_id == x.checksum) ≡ true = ground arith in
      get-checked ∙ rw e (unfold checked in rw test refl)

  torn_get :
      (x : Context)
      → slot c tid ≡ x
      → (bit_xor x.span_id x.root_span_id ≡ x.checksum) ⊎ (get c tid ≡ empty)
  torn_get x e = elim (Bool-cases (bit_xor x.span_id x.root_span_id == x.checksum)) [
    | inl q ↦ inl (ground arith)
    | inr q ↦ inr (get-checked ∙ rw e (unfold checked in rw q refl))
  ]

abbrev with_span : ℕ → Context → Context
with_span a x = record x { span_id = a }

abbrev with_root : ℕ → Context → Context
with_root b x = record x { root_span_id = b }

abbrev with_checksum : ℕ → Context → Context
with_checksum k x = record x { checksum = k }

-- The states after the writes.
module _ (tid a b : ℕ) (c : Contexts) (lt : page_index tid < c.max_pages) where
  abbrev first : Contexts
  first = write_span tid a c

  abbrev second : Contexts
  second = write_root tid b first

  first-HasPage : HasPage tid first
  unfolding write_span
  first-HasPage =
      write_slot-HasPage (with_span a) tid (get_page c tid).1 (get_page-HasPage tid c lt)

  second-HasPage : HasPage tid second
  unfolding write_root
  second-HasPage = write_slot-HasPage (with_root b) tid first first-HasPage

  third-HasPage : HasPage tid (set_context tid a b c)
  unfolding set_context write_checksum
  third-HasPage = write_slot-HasPage (with_checksum (bit_xor a b)) tid second second-HasPage

  first-slot : slot first tid ≡ record (slot c tid) { span_id = a }
  unfolding write_span
  first-slot =
      write_slot-slot (with_span a) tid (get_page c tid).1 (get_page-HasPage tid c lt)
      ∙ ap (with_span a) (get_page-slot tid c)

  second-slot : slot second tid ≡ record (slot c tid) { span_id = a; root_span_id = b }
  unfolding write_root
  second-slot = write_slot-slot (with_root b) tid first first-HasPage ∙ ap (with_root b) first-slot

  third-slot :
      slot (set_context tid a b c) tid
      ≡ record (slot c tid) { span_id = a; root_span_id = b; checksum = bit_xor a b }
  unfolding set_context write_checksum
  third-slot =
      write_slot-slot (with_checksum (bit_xor a b)) tid second second-HasPage
      ∙ ap (with_checksum (bit_xor a b)) second-slot

  third-others :
      (other : ℕ) → (tid == other) ≡ false → get (set_context tid a b c) other ≡ get c other
  unfolding set_context write_checksum write_root write_span get_page
  third-others other apart =
      write_slot-others (with_checksum (bit_xor a b)) tid second second-HasPage other apart
      ∙ write_slot-others (with_root b) tid first first-HasPage other apart
      ∙ write_slot-others (with_span a) tid (get_page c tid).1 (get_page-HasPage tid c lt) other
          apart
      ∙ initialize-get c (page_index tid) other

-- Java code that sets the span ids of a thread whose page is inside the array: afterwards the thread
-- gets these ids, with the tags that were stored for it, and any other thread gets what it got before.
-- Between the three writes the thread gets the empty context, unless the exclusive or of the ids that
-- are stored by then happens to be the checksum that was stored before.
pub get-set_context :
    (tid span_id root_span_id other : ℕ) (c : Contexts)
    → page_index tid < c.max_pages
    → (let before = slot c tid in
        let one = write_span tid span_id c in
        let two = write_root tid root_span_id one in
        let after = set_context tid span_id root_span_id c in
        (get after tid ≡ record before {
          span_id = span_id;
          root_span_id = root_span_id;
          checksum = bit_xor span_id root_span_id;
        })
        × ((tid ≡ other) ⊎ (get after other ≡ get c other))
        × ((bit_xor span_id before.root_span_id ≡ before.checksum) ⊎ (get one tid ≡ empty))
        × ((bit_xor span_id root_span_id ≡ before.checksum) ⊎ (get two tid ≡ empty)))
get-set_context tid a b other c lt = (
  whole_get tid (set_context tid a b c) (third-HasPage tid a b c lt) _ (third-slot tid a b c lt)
      refl,
  elim (Bool-cases (tid == other)) [
    | inl e ↦ inl (ground arith)
    | inr e ↦ inr (third-others tid a b c lt other e)
  ],
  torn_get tid (write_span tid a c) (first-HasPage tid a b c lt) _ (first-slot tid a b c lt),
  torn_get tid (write_root tid b (write_span tid a c)) (second-HasPage tid a b c lt) _
      (second-slot tid a b c lt),
)
