-- ===== src/Dwarf/Parse.antt =====
-- `parse`, `parseCie` and `parseFde`.
use java_profiler.Base.{
  ℕ, zero, suc, ◌+◌, ◌-◌, ◌*◌, ◌%◌, ◌^◌, bit_and, Bool, ◌&&◌, ◌||◌, ◌==◌, ltb, if◌then◌else◌,
  get_elem?, length, List, Option, none, some,
}
use java_profiler.Dwarf.Machine.{reg_fp, linked_frame_size, stack_slot, parse_instructions}
use java_profiler.Dwarf.Reading.{
  ok, fault, spent, M, pure, ◌>>=◌, ◌>>◌, proceed, get_ptr_at, set_ptr, put_record, offset_address,
  get8, get32, get_leb, get_sleb, skip_bytes, get_ptr,
}

-- A read at an address, which does not move `_ptr`.
unfoldable pub peeked : Option ℕ → M ℕ
peeked none p = fault
peeked (some b) p = ok b p

unfoldable pub set_aligns : (code_align data_align : ℕ) → M (Unit {0})
set_aligns code_align data_align p =
    ok tt (record p { code_align = code_align; data_align = data_align })

unfoldable pub get_count : M ℕ
get_count p = ok p.count p

unfoldable pub get_image_base : M ℕ
get_image_base p = ok p.image_base p

-- The lengths 0 and 0xffffffff.
unfoldable pub no_length : ℕ → Bool
no_length len = len == 0 || len == 2 ^ 32 - 1

-- `omit_sign_bit` and `omit_sign_bit_mask_low`
unfoldable pub omit_sign_bit : ℕ → ℕ
omit_sign_bit value = bit_and value 0xf7

unfoldable pub omit_sign_bit_mask_low : ℕ → ℕ
omit_sign_bit_mask_low value = bit_and value 0x7

-- The negation of the test at the start of `parse`.
unfoldable pub is_supported : (version eh_frame_ptr_enc fde_count_enc table_enc : ℕ) → Bool
unfolding omit_sign_bit omit_sign_bit_mask_low
is_supported version eh_frame_ptr_enc fde_count_enc table_enc =
    version == 1
    && omit_sign_bit_mask_low eh_frame_ptr_enc == 0x03
    && omit_sign_bit_mask_low fde_count_enc == 0x03
    && omit_sign_bit table_enc == 0x33

module _ (image : List ℕ) where
  unfoldable pub peek8 : (at : ℕ) → M ℕ
  unfolding peeked
  peek8 at = peeked (get_elem? image at)

  unfoldable pub peek32 : (at : ℕ) → M ℕ
  unfolding peek8
  peek32 at = do
    a ← peek8 at
    b ← peek8 (at + 1)
    c ← peek8 (at + 2)
    d ← peek8 (at + 3)
    pure (a + b * 2 ^ 8 + c * 2 ^ 16 + d * 2 ^ 24)

  -- `while (*_ptr++)`, with a round for each byte of the image and one for the read behind it.
  unfoldable pub skip_string : (fuel : ℕ) → M (Unit {0})
  unfolding get8
  skip_string zero p = spent
  skip_string (suc fuel) p =
      let rest = skip_string fuel in proceed (λ b. if b == 0 then pure tt else rest) (get8 image p)

  unfoldable pub parse_cie : M (Unit {0})
  unfolding get32 no_length get_ptr_at skip_bytes skip_string get_leb get_sleb set_aligns set_ptr
  parse_cie = do
    cie_len ← get32 image
    cie_start ← get_ptr_at
    if no_length cie_len then pure tt else (do
      skip_bytes 5
      skip_string (suc (length image))
      code_align ← get_leb image
      data_align ← get_sleb image
      set_aligns code_align data_align
      set_ptr (cie_start + cie_len))

  -- The part of `parseFde` for the first description.
  unfoldable pub parse_first : (count fde_start cie_offset : ℕ) → M (Unit {0})
  unfolding set_ptr parse_cie
  parse_first count fde_start cie_offset =
      if count == 0
      then (do
        set_ptr ((fde_start + 2 ^ 64 - cie_offset) % 2 ^ 64)
        parse_cie
        set_ptr (fde_start + 4))
      else pure tt

  -- The part of `parseFde` behind the offset of the common entry.
  unfoldable pub parse_range : (end : ℕ) → M (Unit {0})
  unfolding get_ptr get_image_base get32 get_leb skip_bytes parse_instructions put_record
  parse_range end = do
    start ← get_ptr image
    base ← get_image_base
    let range_start = (start + 2 ^ 64 - base) % 2 ^ 32
    range_len ← get32 image
    augmentation ← get_leb image
    skip_bytes augmentation
    parse_instructions image range_start end
    put_record ((range_start + range_len) % 2 ^ 32) reg_fp linked_frame_size
        (2 ^ 32 - linked_frame_size) (2 ^ 32 - linked_frame_size + stack_slot)

  unfoldable pub parse_fde : M (Unit {0})
  unfolding get32 no_length get_ptr_at get_count parse_first parse_range
  parse_fde = do
    fde_len ← get32 image
    fde_start ← get_ptr_at
    if no_length fde_len then pure tt else (do
      cie_offset ← get32 image
      count ← get_count
      parse_first count fde_start cie_offset
      parse_range (fde_start + fde_len))

  -- The rest of the loop of `parse`, with `left` entries from the one at `i` on.
  unfoldable pub parse_table : (hdr left i : ℕ) → M (Unit {0})
  unfolding peek32 set_ptr offset_address parse_fde
  parse_table hdr zero i = pure tt
  parse_table hdr (suc left) i =
      let rest = parse_table hdr left (i + 1) in
      do x ← peek32 (hdr + 16 + i * 8); set_ptr (offset_address hdr x); parse_fde; rest

  unfoldable pub parse : (hdr : ℕ) → M (Unit {0})
  unfolding peek8 peek32 is_supported parse_table
  parse hdr = do
    version ← peek8 hdr
    eh_frame_ptr_enc ← peek8 (hdr + 1)
    fde_count_enc ← peek8 (hdr + 2)
    table_enc ← peek8 (hdr + 3)
    if is_supported version eh_frame_ptr_enc fde_count_enc table_enc
        then (do
          fde_count ← peek32 (hdr + 8)
          parse_table hdr (if ltb fde_count (2 ^ 31) then fde_count else 0) 0)
        else pure tt
