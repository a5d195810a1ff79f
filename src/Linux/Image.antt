-- ===== src/Linux/Image.antt =====
-- What an accepted arm64 Image guarantees.
use rp1_bootloader_po_c.Base.{
  ℕ, ◌+◌, ◌-◌, ◌%◌, ◌≤◌, ◌<◌, ◌≡◌, bit_and, arith, leb, if◌then◌else◌, ◌==◌, guard-eq-ok,
  bind-eq-ok, ok, slice, eq_bytes, eq_bytes_iff,
}
use rp1_bootloader_po_c.Base.Bits.{bit_and-low_mask}
use rp1_bootloader_po_c.Base.{
  ◌∙◌, sym, ap, List, ok_or, ok_or-eq-ok, ok_injective, get_range, get_range-slice,
  linux_image_invalid,
}
use rp1_bootloader_po_c.Base.Words.{from_le_bytes}
use rp1_bootloader_po_c.Memory.{read_bytes}
use rp1_bootloader_po_c.Placement.{Memory}
use rp1_bootloader_po_c.Linux.{
  LinuxImage, arm64_image_magic, arm64_image_base_align, le64, place_image, clear_tail,
  validate_arm64_image,
}

-- The 64-bit word of the header at `off`.
abbrev pub header_word : Memory → ℕ → ℕ → ℕ
header_word m base off = from_le_bytes (slice (read_bytes m base 64) off (off + 8))

-- The image starts at the load address with the magic word, its base is 2 MiB aligned and its text
-- offset leads from there to the load address; it fits the reserved range; text offset, size and flags
-- are those of the header, where a size of zero stands for the length of the file; the memory behind
-- the loaded file up to the image's size is zero, and no other byte is changed.
pub record IsBootable (base loaded_len max_len : ℕ) (m : Memory) (image : LinuxImage) (m' : Memory)
    : Type 0 where
  pub has_magic : slice (read_bytes m base 64) 56 60 ≡ arm64_image_magic
  pub starts : image.entry ≡ base
  pub offset : image.image_base + image.text_offset ≡ base
  pub aligned : image.image_base % arm64_image_base_align ≡ 0
  pub fits : image.image_size ≤ max_len
  pub text_offset_is : image.text_offset ≡ header_word m base 8
  pub image_size_is :
      image.image_size ≡ (if header_word m base 16 == 0 then loaded_len else header_word m base 16)
  pub flags_are : image.flags ≡ header_word m base 24
  pub cleared : (a : ℕ) → base + loaded_len ≤ a → a < base + image.image_size → m' a ≡ 0
  pub kept_low : (a : ℕ) → a < base + loaded_len → m' a ≡ m a
  pub kept_high : (a : ℕ) → base + image.image_size ≤ a → m' a ≡ m a

module _ (m : Memory) (base loaded_len size a : ℕ) where
  clear_tail_inside :
      base + loaded_len ≤ a → a < base + size → clear_tail m base loaded_len size a ≡ 0
  unfolding clear_tail
  clear_tail_inside h k = ground arith

  clear_tail_low : a < base + loaded_len → clear_tail m base loaded_len size a ≡ m a
  unfolding clear_tail
  clear_tail_low h = ground arith

  clear_tail_high : base + size ≤ a → clear_tail m base loaded_len size a ≡ m a
  unfolding clear_tail
  clear_tail_high h = ground arith

le64-word :
    (bytes : List ℕ) (off w : ℕ)
    → le64 bytes off ≡ ok w
    → w ≡ from_le_bytes (slice bytes off (off + 8))
unfolding le64
le64-word bytes off w e =
    let (b, h, e1) = bind-eq-ok (ok_or (get_range bytes off (off + 8)) linux_image_invalid) _ e in
    sym (ok_injective e1)
    ∙ ap from_le_bytes (get_range-slice bytes off (off + 8) b (ok_or-eq-ok _ _ h))

place_image-facts :
    (base loaded_len max_len text_offset header_size flags : ℕ) (m m' : Memory) (image : LinuxImage)
    → slice (read_bytes m base 64) 56 60 ≡ arm64_image_magic
    → (text_offset ≡ header_word m base 8)
      × (header_size ≡ header_word m base 16)
      × (flags ≡ header_word m base 24)
    → place_image base loaded_len max_len text_offset header_size flags m ≡ ok (image, m')
    → IsBootable base loaded_len max_len m image m'
unfolding place_image
place_image-facts base loaded_len max_len text_offset header_size flags m m' image magic words e =
    let size = if header_size == 0 then loaded_len else header_size in
    let (below, e1) = guard-eq-ok (leb text_offset base) _ _ e in
    let (aligned, e2) =
      guard-eq-ok (bit_and (base - text_offset) (arm64_image_base_align - 1) == 0) _ _ e1 in
    let (fits, e3) = guard-eq-ok (leb size max_len) _ _ e2 in
    let stored : clear_tail m base loaded_len size ≡ m' = ground arith in
    let sized : size ≡ image.image_size = ground arith in
    let text_is : image.text_offset ≡ text_offset = ground arith in
    let flags_is : image.flags ≡ flags = ground arith in
    let low = bit_and-low_mask 21 (base - text_offset) in
    record {
      has_magic = magic;
      starts = ground arith;
      offset = ground arith;
      aligned = ground (arith, low);
      fits = ground arith;
      text_offset_is = text_is ∙ words.0;
      image_size_is = sym sized ∙ ap (λ (n : ℕ). if n == 0 then loaded_len else n) words.1;
      flags_are = flags_is ∙ words.2;
      cleared = λ a h k.
          rw (← stored) (clear_tail_inside m base loaded_len size a h (omega (arith, sized)));
      kept_low = λ a h. rw (← stored) (clear_tail_low m base loaded_len size a h);
      kept_high =
          λ a h. rw (← stored) (clear_tail_high m base loaded_len size a (omega (arith, sized)));
    }

-- An accepted image is bootable, with the text offset, the size and the flags of its header.
pub validate_arm64_image-IsBootable :
    (base loaded_len max_len : ℕ) (m m' : Memory) (image : LinuxImage)
    → validate_arm64_image base loaded_len max_len m ≡ ok (image, m')
    → IsBootable base loaded_len max_len m image m'
unfolding validate_arm64_image
validate_arm64_image-IsBootable base loaded_len max_len m m' image e =
    let hdr = read_bytes m base 64 in
    let (_, e1) = guard-eq-ok (leb 64 loaded_len) _ _ e in
    let (text_offset, h1, e2) = bind-eq-ok (le64 hdr 8) _ e1 in
    let (magic, e3) = guard-eq-ok (eq_bytes (slice hdr 56 60) arm64_image_magic) _ _ e2 in
    let (header_size, h2, e4) = bind-eq-ok (le64 hdr 16) _ e3 in
    let (flags, h3, e5) = bind-eq-ok (le64 hdr 24) _ e4 in
    place_image-facts base loaded_len max_len text_offset header_size flags m m' image
      ((eq_bytes_iff (slice hdr 56 60) arm64_image_magic).0 magic)
      (le64-word hdr 8 text_offset h1, le64-word hdr 16 header_size h2, le64-word hdr 24 flags h3)
      e5
