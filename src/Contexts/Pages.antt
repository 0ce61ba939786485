-- ===== src/Contexts/Pages.antt =====
-- What threads see in the pages.
use java_profiler.Base.{
  ℕ, ◌≤◌, ◌<◌, ◌≡◌, refl, false, ◌==◌, ltb, leb, Option, none, some, arith, Bool-cases, inl, inr,
  ◌⊎◌, ==_refl,
}
use java_profiler.Contexts.{
  Context, Contexts, empty, get_max_pages, new, page_index, checked, get_in, get, page_or_zero,
  initialize, get_page, reset,
}

-- Every thread id below the maximum has a page inside the array.
pub page_index-lt : (max_tid tid : ℕ) → tid < max_tid → page_index tid < (new max_tid).max_pages
unfolding new get_max_pages
page_index-lt max_tid tid lt = ground arith

get_in-or_zero :
    (o : Option (ℕ → Context)) (tid : ℕ) → get_in (some (page_or_zero o)) tid ≡ get_in o tid
unfolding get_in checked page_or_zero
get_in-or_zero none tid = refl
get_in-or_zero (some page) tid = refl

pub initialize-get : (c : Contexts) (i tid : ℕ) → get (initialize c i) tid ≡ get c tid
unfolding initialize get
initialize-get c i tid = elim (Bool-cases (leb c.max_pages i)) [
  | inl e ↦ rw e
  | inr e ↦ elim (Bool-cases (i == page_index tid)) [
    | inl q ↦
        let same : i ≡ page_index tid = ground arith in
        rw (e, q, same, get_in-or_zero (c.pages (page_index tid)) tid)
    | inr q ↦ rw (e, q)
  ]
]

-- Sharing the page of a thread with Java code changes what no thread gets. The page is that of the
-- thread if its id has one, with the contexts that were there before, or else with empty contexts; for
-- an id whose page lies behind the array, the array is read outside of its bounds.
pub get_page-cases :
    (c : Contexts) (tid : ℕ)
    → ((other : ℕ) → get (get_page c tid).1 other ≡ get c other)
      × (((page_index tid < c.max_pages)
            × ((get_page c tid).0 ≡ some (some (page_or_zero (c.pages (page_index tid)))))
            × ((get_page c tid).1.pages (page_index tid)
                ≡ some (page_or_zero (c.pages (page_index tid)))))
          ⊎ ((c.max_pages ≤ page_index tid) × ((get_page c tid).0 ≡ none)))
get_page-cases c tid = (λ other. unfold get_page in initialize-get c (page_index tid) other, cases)
  where
    cases :
        ((page_index tid < c.max_pages)
          × ((get_page c tid).0 ≡ some (some (page_or_zero (c.pages (page_index tid)))))
          × ((get_page c tid).1.pages (page_index tid)
              ≡ some (page_or_zero (c.pages (page_index tid)))))
        ⊎ ((c.max_pages ≤ page_index tid) × ((get_page c tid).0 ≡ none))
    cases = elim (Bool-cases (ltb (page_index tid) c.max_pages)) [
      | inl e ↦
          let inside : leb c.max_pages (page_index tid) ≡ false = ground arith in
          inl (
            ground arith,
            unfold get_page initialize in rw (e, inside, ==_refl (page_index tid)),
            unfold get_page initialize in rw (inside, ==_refl (page_index tid)),
          )
      | inr e ↦ inr (ground arith, unfold get_page in rw e)
    ]

-- After a reset every thread gets the empty context.
pub get-reset : (c : Contexts) (tid : ℕ) → get (reset c) tid ≡ empty
unfolding get reset
get-reset c tid = elim (Bool-cases (ltb (page_index tid) c.max_pages)) [
  | inl e ↦ rw e (unfold get_in in refl)
  | inr e ↦ rw e
]
