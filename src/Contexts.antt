-- ===== src/Contexts.antt =====
-- context.cpp, context.h: the pages of tracing contexts by thread id, which Java code writes to directly.
-- A thread id is not negative. The operations are those of one thread, and allocations succeed; the
-- counters of misses are not modelled.
pub mod Pages
pub mod Writing
mod Examples
use java_profiler.Base.{
  ℕ, zero, suc, ◌+◌, ◌-◌, ◌/◌, ◌%◌, ◌^◌, bit_xor, Bool, true, false, ◌==◌, ltb, leb, if◌then◌else◌,
  update, Option, none, some,
}

abbrev pub page_size : ℕ
page_size = 1024

-- `tags` are the DD_TAGS_CAPACITY tags.
pub record Context : Type 0 where
  pub span_id : ℕ
  pub root_span_id : ℕ
  pub checksum : ℕ
  pub tags : ℕ → ℕ

pub record Contexts : Type 0 where
  pub max_pages : ℕ
  pub pages : ℕ → Option (ℕ → Context)

-- DD_EMPTY_CONTEXT
abbrev pub empty : Context
empty = record { span_id = 0; root_span_id = 0; checksum = 0; tags = λ _. 0 }

-- The number of pages for a maximum of thread ids, at least 128.
unfoldable pub get_max_pages : ℕ → ℕ
get_max_pages max_tid =
    let pages = (max_tid + page_size - 1) / page_size in if ltb pages 128 then 128 else pages

-- The static members, for what `OS::getMaxThreadId` returns.
unfoldable pub new : ℕ → Contexts
unfolding get_max_pages
new max_tid = record { max_pages = get_max_pages max_tid; pages = λ _. none }

-- `tid >> DD_CONTEXT_PAGE_SHIFT`
abbrev pub page_index : ℕ → ℕ
page_index tid = tid / page_size

-- A context whose checksum fits, or the empty one.
unfoldable pub checked : Context → Context
checked c = if bit_xor c.span_id c.root_span_id == c.checksum then c else empty

unfoldable pub get_in : Option (ℕ → Context) → ℕ → Context
unfolding checked
get_in none tid = empty
get_in (some page) tid = checked (page (tid % page_size))

unfoldable pub get : Contexts → ℕ → Context
unfolding get_in
get c tid =
    if ltb (page_index tid) c.max_pages then get_in (c.pages (page_index tid)) tid else empty

abbrev pub zero_page : ℕ → Context
zero_page = λ _. empty

unfoldable pub page_or_zero : Option (ℕ → Context) → ℕ → Context
page_or_zero none = zero_page
page_or_zero (some page) = page

unfoldable pub initialize : Contexts → ℕ → Contexts
unfolding page_or_zero
initialize c i =
    if leb c.max_pages i
    then c
    else record c { pages = update c.pages i (some (page_or_zero (c.pages i))) }

-- `getPage` with the page that it returns; the read of `_pages` behind the array is `none`.
unfoldable pub get_page : Contexts → ℕ → Option (Option (ℕ → Context)) × Contexts
unfolding initialize
get_page c tid =
    let c' = initialize c (page_index tid) in
    (if ltb (page_index tid) c.max_pages then some (c'.pages (page_index tid)) else none, c')

unfoldable pub reset : Contexts → Contexts
reset c = record c { pages = λ i. if ltb i c.max_pages then none else c.pages i }

-- A write of Java code to the context of a thread in the page that it shares.
unfoldable pub write_in : (Context → Context) → ℕ → Option (ℕ → Context) → Option (ℕ → Context)
write_in write tid none = none
write_in write tid (some page) =
    some (update page (tid % page_size) (write (page (tid % page_size))))

unfoldable pub write_slot : (Context → Context) → ℕ → Contexts → Contexts
unfolding write_in
write_slot write tid c = record c {
  pages = update c.pages (page_index tid) (write_in write tid (c.pages (page_index tid)));
}

-- The three writes of `setContext` in JavaProfiler.java, the first one with the page that it gets.
unfoldable pub write_span : (tid span_id : ℕ) → Contexts → Contexts
unfolding write_slot get_page
write_span tid span_id c =
    let (_, c') = get_page c tid in write_slot (λ x. record x { span_id = span_id }) tid c'

unfoldable pub write_root : (tid root_span_id : ℕ) → Contexts → Contexts
unfolding write_slot
write_root tid root_span_id c = write_slot (λ x. record x { root_span_id = root_span_id }) tid c

unfoldable pub write_checksum : (tid checksum : ℕ) → Contexts → Contexts
unfolding write_slot
write_checksum tid checksum c = write_slot (λ x. record x { checksum = checksum }) tid c

unfoldable pub set_context : (tid span_id root_span_id : ℕ) → Contexts → Contexts
unfolding write_span write_root write_checksum
set_context tid span_id root_span_id c =
    write_checksum tid (bit_xor span_id root_span_id)
      (write_root tid root_span_id (write_span tid span_id c))
