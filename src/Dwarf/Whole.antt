-- ===== src/Dwarf/Whole.antt =====
-- The parser as a whole: it ends, and leaves a sound table.
use java_profiler.Base.{
  ℕ, zero, suc, ◌+◌, ◌-◌, ◌*◌, ◌%◌, ◌^◌, ◌<◌, refl, true, false, ◌==◌, ltb, if◌then◌else◌, length,
  List, Option, none, some, arith, Bool-cases, inl, inr, get_elem?, Bool,
}
use java_profiler.Dwarf.Machine.{reg_fp, linked_frame_size, stack_slot}
use java_profiler.Dwarf.Parse.{
  peeked, set_aligns, get_count, get_image_base, no_length, is_supported, peek8, peek32,
  skip_string, parse_cie, parse_first, parse_range, parse_fde, parse_table, parse,
}
use java_profiler.Dwarf.Progress.{
  IsSound, Ensures, ended, faulted, Ensures-map, Moves, Advances, keep, first_byte, weaken,
  get32-Advances, get_leb-Advances, get_sleb-Advances, get_ptr-Advances, put_record-Advances,
}
use java_profiler.Dwarf.Reading.{
  Run, ok, M, pure, proceed, ◌>>=◌, get_ptr_at, set_ptr, offset_address, get32, get_leb, skip_bytes,
}
use java_profiler.Dwarf.Running.{parse_instructions-Ensures}
use java_profiler.Dwarf.{DwarfParser, new}

-- A run that ends, and keeps the table sound.
abbrev pub Keeps : {A : Type 0} → M A → Type 0
Keeps m = (p : DwarfParser) → Ensures (λ q. IsSound p → IsSound q) (m p)

from_Advances : {A : Type 0} {m : M A} → Advances 0 m → Keeps m
from_Advances h p = Ensures-map (λ q s. s.sound) (h p)

proceed-Keeps :
    {A B : Type 0} {p : DwarfParser} {r : Run A} (next : A → M B)
    → Ensures (λ q. IsSound p → IsSound q) r
    → ((a : A) → Keeps (next a))
    → Ensures (λ q. IsSound p → IsSound q) (proceed next r)
proceed-Keeps next (ended {a} {p = q} s) h = Ensures-map (λ r t b. t (s b)) (h a q)
proceed-Keeps next faulted h = faulted

bind-Keeps :
    {A B : Type 0} {m : M A} {next : A → M B}
    → Keeps m
    → ((a : A) → Keeps (next a))
    → Keeps (m >>= next)
bind-Keeps {next = next} first rest p = proceed-Keeps next (first p) rest

set_ptr-Keeps : (n : ℕ) → Keeps (set_ptr n)
unfolding set_ptr
set_ptr-Keeps n p = ended (λ s. record { room = s.room; some_room = s.some_room; last = s.last })

set_aligns-Keeps : (code_align data_align : ℕ) → Keeps (set_aligns code_align data_align)
unfolding set_aligns
set_aligns-Keeps code_align data_align p =
    ended (λ s. record { room = s.room; some_room = s.some_room; last = s.last })

skip_bytes-Keeps : (n : ℕ) → Keeps (skip_bytes n)
unfolding skip_bytes
skip_bytes-Keeps n = set_ptr_by
  where
    set_ptr_by : Keeps (λ p. ok tt (record p { ptr = p.ptr + n }))
    set_ptr_by p = ended (λ s. record { room = s.room; some_room = s.some_room; last = s.last })

pure-Keeps : {A : Type 0} (a : A) → Keeps (pure a)
pure-Keeps a p = ended (λ s. s)

-- A test with an early return.
unless : (test : Bool) (m : M (Unit {0})) → Keeps m → Keeps (if test then pure tt else m)
unless true m h = pure-Keeps tt
unless false m h = h

when : (test : Bool) (m : M (Unit {0})) → Keeps m → Keeps (if test then m else pure tt)
when true m h = h
when false m h = pure-Keeps tt

module _ (image : List ℕ) where
  get32-Keeps : Keeps (get32 image)
  get32-Keeps = from_Advances (weaken (get32-Advances image))

  leb-Keeps : Keeps (get_leb image)
  leb-Keeps = from_Advances (weaken (get_leb-Advances image))

  peek8-Keeps : (at : ℕ) → Keeps (peek8 image at)
  unfolding peek8
  peek8-Keeps at = go (get_elem? image at)
    where
      go : (o : Option ℕ) → Keeps (peeked o)
      go none p = unfold peeked in faulted
      go (some b) p = unfold peeked in ended (λ s. s)

  peek32-Keeps : (at : ℕ) → Keeps (peek32 image at)
  unfolding peek32
  peek32-Keeps at = bind-Keeps (peek8-Keeps at) (λ a. bind-Keeps (peek8-Keeps (at + 1)) (λ b.
      bind-Keeps (peek8-Keeps (at + 2))
        (λ c. bind-Keeps (peek8-Keeps (at + 3)) (λ d. pure-Keeps _))))

  skip_string-Ensures :
      (fuel : ℕ) (p : DwarfParser)
      → length image < p.ptr + fuel
      → 0 < fuel
      → Ensures (Moves 0 p) (skip_string image fuel p)
  unfolding skip_string
  skip_string-Ensures zero p rounds some_left = absurd (omega arith)
  skip_string-Ensures (suc fuel) p rounds some_left =
      Ensures-map (λ q m. record { moved = omega (arith, m.moved); sound = m.sound })
        (first_byte image _ p (λ b inside. elim (Bool-cases (b == 0)) [
          | inl e ↦ rw e (ended keep)
          | inr e ↦
              rw e (
                skip_string-Ensures fuel (record p { ptr = p.ptr + 1 }) (omega arith) (omega arith))
        ]))

  skip_string-Keeps : Keeps (skip_string image (suc (length image)))
  skip_string-Keeps =
      from_Advances (λ q. skip_string-Ensures (suc (length image)) q (omega arith) (omega arith))

  parse_cie-Keeps : Keeps (parse_cie image)
  unfolding parse_cie get_ptr_at
  parse_cie-Keeps = bind-Keeps get32-Keeps (λ cie_len p.
      unless (no_length cie_len) _
        (bind-Keeps (skip_bytes-Keeps 5) (λ _. bind-Keeps skip_string-Keeps (λ _.
          bind-Keeps leb-Keeps (λ code_align.
            bind-Keeps (from_Advances (weaken (get_sleb-Advances image))) (λ data_align.
              bind-Keeps (set_aligns-Keeps code_align data_align)
                (λ _. set_ptr-Keeps (p.ptr + cie_len)))))))
        p)

  parse_first-Keeps :
      (count fde_start cie_offset : ℕ) → Keeps (parse_first image count fde_start cie_offset)
  unfolding parse_first
  parse_first-Keeps count fde_start cie_offset = when (count == 0) _ (
      bind-Keeps (set_ptr-Keeps ((fde_start + 2 ^ 64 - cie_offset) % 2 ^ 64))
        (λ _. bind-Keeps parse_cie-Keeps (λ _. set_ptr-Keeps (fde_start + 4))))

  parse_range-Keeps : (end : ℕ) → Keeps (parse_range image end)
  unfolding parse_range get_image_base
  parse_range-Keeps end = bind-Keeps (from_Advances (weaken (get_ptr-Advances image))) (λ start p.
      let range_start = (start + 2 ^ 64 - p.image_base) % 2 ^ 32 in
      proceed-Keeps _ (get32-Keeps p) (λ range_len. bind-Keeps leb-Keeps (λ augmentation.
        bind-Keeps (skip_bytes-Keeps augmentation) (λ _.
          bind-Keeps (from_Advances (parse_instructions-Ensures image range_start end)) (λ _.
            from_Advances (
              put_record-Advances ((range_start + range_len) % 2 ^ 32) reg_fp linked_frame_size
                (2 ^ 32 - linked_frame_size) (2 ^ 32 - linked_frame_size + stack_slot)))))))

  parse_fde-Keeps : Keeps (parse_fde image)
  unfolding parse_fde get_ptr_at get_count
  parse_fde-Keeps = bind-Keeps get32-Keeps (λ fde_len p.
      unless (no_length fde_len) _
        (bind-Keeps get32-Keeps (λ cie_offset q.
          bind-Keeps (parse_first-Keeps q.count p.ptr cie_offset)
            (λ _. parse_range-Keeps (p.ptr + fde_len)) q))
        p)

  parse_table-Keeps : (hdr left i : ℕ) → Keeps (parse_table image hdr left i)
  unfolding parse_table
  parse_table-Keeps hdr zero i = pure-Keeps tt
  parse_table-Keeps hdr (suc left) i = bind-Keeps (peek32-Keeps (hdr + 16 + i * 8)) (λ x.
      bind-Keeps (set_ptr-Keeps (offset_address hdr x))
        (λ _. bind-Keeps parse_fde-Keeps (λ _. parse_table-Keeps hdr left (i + 1))))

  parse-Keeps : (hdr : ℕ) → Keeps (parse image hdr)
  unfolding parse
  parse-Keeps hdr = bind-Keeps (peek8-Keeps hdr) (λ version.
      bind-Keeps (peek8-Keeps (hdr + 1)) (λ eh_frame_ptr_enc.
        bind-Keeps (peek8-Keeps (hdr + 2)) (λ fde_count_enc.
          bind-Keeps (peek8-Keeps (hdr + 3)) (λ table_enc.
            when (is_supported version eh_frame_ptr_enc fde_count_enc table_enc) _ (
              bind-Keeps (peek32-Keeps (hdr + 8)) (λ fde_count.
                parse_table-Keeps hdr (if ltb fde_count (2 ^ 31) then fde_count else 0) 0))))))

  -- Whatever the image holds and wherever the header stands in it, the parser has a round left for every
  -- round that it takes: it comes to an end, or to a read behind the image, a failed assert or a shift
  -- that is too wide. At an end the table has room for its entries, and `_prev` is the last of them.
  pub parse-new-Ensures : (base hdr : ℕ) → Ensures IsSound (parse image hdr (new base))
  parse-new-Ensures base hdr =
      Ensures-map
        (λ q s. s (
          unfold new in
          record { room = omega arith; some_room = omega arith; last = inl (refl, refl) }))
        (parse-Keeps hdr (new base))
