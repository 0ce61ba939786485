-- ===== src/CodeCache.antt =====
-- codeCache.cpp: the symbols of a native library and its table of frame layouts. An address is a number;
-- the `FrameDesc` constants are those of x86-64. The imports and the marks of names are not modelled.
pub mod Bisect
pub mod Symbols
pub mod Frames
pub mod Adding
mod Examples
use java_profiler.Base.{
  ℕ, zero, suc, ◌+◌, ◌-◌, ◌*◌, ◌/◌, ◌%◌, ◌^◌, Bool, true, false, ◌&&◌, ◌||◌, ◌==◌, ltb, leb,
  if◌then◌else◌, update, str_equal, List, [], ◌∷◌, Option, none, some, ◌>>=◌,
}

abbrev pub initial_code_cache_capacity : ℕ
initial_code_cache_capacity = 1000

pub record CodeBlob : Type 0 where
  pub start : ℕ
  pub end : ℕ
  pub name : List ℕ

-- The signed fields are patterns of 32 bits.
pub record FrameDesc : Type 0 where
  pub loc : ℕ
  pub cfa : ℕ
  pub fp_off : ℕ
  pub pc_off : ℕ

pub record CodeCache : Type 0 where
  pub name : List ℕ
  pub min_address : ℕ
  pub max_address : ℕ
  pub text_base : ℕ
  pub plt_offset : ℕ
  pub plt_size : ℕ
  pub dwarf_table : ℕ → FrameDesc
  pub dwarf_table_length : ℕ
  pub capacity : ℕ
  pub count : ℕ
  pub blobs : ℕ → CodeBlob

abbrev pub empty_frame : FrameDesc
empty_frame = record { loc = 0; cfa = 7 + 8 * 2 ^ 8; fp_off = 0x80000000; pc_off = 2 ^ 32 - 8 }

abbrev pub default_frame : FrameDesc
default_frame = record { loc = 0; cfa = 6 + 16 * 2 ^ 8; fp_off = 2 ^ 32 - 16; pc_off = 2 ^ 32 - 8 }

unfoldable pub contains : CodeCache → ℕ → Bool
contains c address = leb c.min_address address && ltb address c.max_address

-- The memory behind the copied blobs is not read.
unfoldable pub expand : CodeCache → CodeCache
expand c = record c { capacity = c.capacity * 2 }

-- `*s < ' '` on a signed char
unfoldable pub printable : List ℕ → List ℕ
printable [] = []
printable (b ∷ s) = (if ltb b 32 || leb 128 b then 63 else b) ∷ printable s

unfoldable pub update_bounds : CodeCache → ℕ → ℕ → CodeCache
update_bounds c start end = record c {
  min_address = if ltb start c.min_address then start else c.min_address;
  max_address = if ltb c.max_address end then end else c.max_address;
}

unfoldable pub append_blob : CodeCache → CodeBlob → CodeCache
append_blob c b = record c { blobs = update c.blobs c.count b; count = c.count + 1 }

-- `add` for a length that is not negative.
unfoldable pub add : CodeCache → (start length : ℕ) → List ℕ → Bool → CodeCache
unfolding expand printable update_bounds append_blob
add c start length name bounds =
    let room = if leb c.capacity c.count then expand c else c in
    let b : CodeBlob = record { start = start; end = start + length; name = printable name } in
    if bounds then update_bounds (append_blob room b) start (start + length) else append_blob room b

-- The loop of `findBlob` from `i` on, with `left` rounds to go.
unfoldable pub find_blob_loop : (ℕ → CodeBlob) → List ℕ → ℕ → ℕ → Option ℕ
unfolding str_equal
find_blob_loop blobs name zero i = none
find_blob_loop blobs name (suc left) i =
    let rest = find_blob_loop blobs name left (i + 1) in
    if str_equal (blobs i).name name then some i else rest

unfoldable pub find_blob : CodeCache → List ℕ → Option ℕ
unfolding find_blob_loop
find_blob c name = find_blob_loop c.blobs name c.count 0

-- `address >= _start && address < _end`
unfoldable pub holds : CodeBlob → ℕ → Bool
holds b address = leb b.start address && ltb address b.end

unfoldable pub find_address_loop : (ℕ → CodeBlob) → ℕ → ℕ → ℕ → Option ℕ
unfolding holds
find_address_loop blobs address zero i = none
find_address_loop blobs address (suc left) i =
    let rest = find_address_loop blobs address left (i + 1) in
    if holds (blobs i) address then some i else rest

-- `findBlobByAddress`, with the index of the blob.
unfoldable pub find_blob_by_address : CodeCache → ℕ → Option ℕ
unfolding find_address_loop
find_blob_by_address c address = find_address_loop c.blobs address c.count 0

-- Where an entry of a sorted table lies: before what is searched, behind it, or there.
pub data Side : Type 0 where
  before behind here : Side

-- The end of a binary search: an entry, or `low` when no entry is left.
pub data Search : Type 0 where
  at : ℕ → Search
  missing : ℕ → Search

unfoldable pub turn : Side → ℕ → (right left : Option Search) → Option Search
turn before mid right left = right
turn behind mid right left = left
turn here mid right left = some (at mid)

-- `while (low <= high)` of both binary searches, where `past` is high + 1, since high may be -1.
unfoldable pub bisect : (ℕ → Side) → (fuel low past : ℕ) → Option Search
unfolding turn
bisect side zero low past = if ltb low past then none else some (missing low)
bisect side (suc fuel) low past =
    let mid = (low + past - 1) / 2 in
    let right = bisect side fuel (mid + 1) past in
    let left = bisect side fuel low mid in
    if ltb low past then turn (side mid) mid right left else some (missing low)

-- The tests of `binarySearch`.
unfoldable pub blob_side : CodeBlob → ℕ → Side
blob_side b address =
    if leb b.end address then before else (if ltb address b.start then behind else here)

-- What `binarySearch` returns: the start and the name of a blob, or the name of the library.
pub data Symbol : Type 0 where
  symbol : ℕ → List ℕ → Symbol
  library : List ℕ → Symbol

unfoldable pub blob_symbol : CodeBlob → Symbol
blob_symbol b = symbol b.start b.name

-- The end of `binarySearch`: a blob of size 0, or one that ends at the address.
unfoldable pub nearby : CodeCache → ℕ → ℕ → Symbol
unfolding blob_symbol
nearby c address zero = library c.name
nearby c address (suc i) =
    let b = c.blobs i in
    if b.start == b.end || b.end == address then blob_symbol b else library c.name

unfoldable pub searched : CodeCache → ℕ → Search → Symbol
unfolding nearby
searched c address (at i) = blob_symbol (c.blobs i)
searched c address (missing low) = nearby c address low

unfoldable pub binary_search : CodeCache → ℕ → Option Symbol
unfolding bisect blob_side searched
binary_search c address = bisect (λ i. blob_side (c.blobs i) address) c.count 0 c.count >>= λ r.
    some (searched c address r)

unfoldable pub frame_side : FrameDesc → ℕ → Side
frame_side d target_loc =
    if ltb d.loc target_loc then before else (if ltb target_loc d.loc then behind else here)

unfoldable pub searched_frame : CodeCache → ℕ → Search → FrameDesc
searched_frame c target_loc (at i) = c.dwarf_table i
searched_frame c target_loc (missing (suc i)) = c.dwarf_table i
searched_frame c target_loc (missing zero) =
    if ltb ((target_loc + 2 ^ 32 - c.plt_offset) % 2 ^ 32) c.plt_size
    then empty_frame
    else default_frame

unfoldable pub find_frame_at : CodeCache → ℕ → Option FrameDesc
unfolding bisect frame_side searched_frame
find_frame_at c target_loc =
    bisect (λ i. frame_side (c.dwarf_table i) target_loc) c.dwarf_table_length 0
      c.dwarf_table_length
    >>= λ r. some (searched_frame c target_loc r)

-- `findFrameDesc`
unfoldable pub find_frame_desc : CodeCache → ℕ → Option FrameDesc
unfolding find_frame_at
find_frame_desc c pc = find_frame_at c ((pc + 2 ^ 64 - c.text_base) % 2 ^ 32)
