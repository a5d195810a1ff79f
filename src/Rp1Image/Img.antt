-- ===== src/Rp1Image/Img.antt =====
-- /RP1.img: what `parse_rp1_img` accepts, and that it reads back a file that was laid out for it.
pub mod RoundTrip
use rp1_bootloader_po_c.Base.{not}
use rp1_bootloader_po_c.Base.{
  ℕ, ◌+◌, ◌-◌, ◌*◌, ◌/◌, ◌%◌, ◌^◌, ◌≤◌, ◌<◌, ◌≡◌, ◌⊎◌, inl, inr, false, List, arith, ltb,
  Bool-cases, length, slice, IsBytes, ok, guard-eq-ok, slice-IsBytes, length-slice,
}
use rp1_bootloader_po_c.Base.Bits.{bit_and-high_mask, bit_or_halves, bit_or-zero}
use rp1_bootloader_po_c.Base.Words.{from_le_bytes, from_le_bytes-lt}
use rp1_bootloader_po_c.Rp1Image.{
  Rp1Image, ImgHeader, rp1_sram_base, rp1_max_image_len, rp1_header_len_min, rp1_img_magic,
  read_header, header_rejected, entry_rejected, clear_thumb, set_thumb, crc32_ieee, accept_header,
  parse_rp1_img,
}

pub clear_thumb_lem : (e : ℕ) → e < 2 ^ 32 → clear_thumb e ≡ e / 2 * 2
unfolding clear_thumb
clear_thumb_lem e h = bit_and-high_mask 1 31 e h

pub set_thumb_lem : (e : ℕ) → set_thumb e ≡ e / 2 * 2 + 1
unfolding set_thumb
set_thumb_lem e = omega (arith, bit_or_halves e 1, bit_or-zero (e / 2))

-- The little-endian word at an offset of the file.
abbrev pub word_at : List ℕ → ℕ → ℕ
word_at bytes off = from_le_bytes (slice bytes off (off + 4))

pub word_at-lt :
    (bytes : List ℕ) (off : ℕ) → IsBytes bytes → off + 4 ≤ length bytes → word_at bytes off < 2 ^ 32
word_at-lt bytes off b h =
    let e : length (slice bytes off (off + 4)) ≡ 4 =
      omega (arith, length-slice bytes off (off + 4) (omega arith) h) in
    rw e at (from_le_bytes-lt (slice bytes off (off + 4)) (slice-IsBytes bytes off (off + 4) b))

-- What a started image must be: the payload is the part of the file that the header names, it lies
-- at the start of the shared SRAM and fits it, the entry is a Thumb address in it, there is a stack,
-- and a checksum that is not zero is that of the payload.
pub record IsLoadable (bytes : List ℕ) (img : Rp1Image) : Type 0 where
  pub named : word_at bytes 0 ≡ rp1_img_magic
  pub payload_is : img.payload ≡ slice bytes (word_at bytes 4) (word_at bytes 4 + word_at bytes 8)
  pub behind_header : rp1_header_len_min ≤ word_at bytes 4
  pub inside_file : word_at bytes 4 + word_at bytes 8 ≤ length bytes
  pub nonempty : 0 < word_at bytes 8
  pub fits : word_at bytes 8 ≤ rp1_max_image_len
  pub at_sram : img.load_addr ≡ rp1_sram_base
  pub is_thumb : img.entry % 2 ≡ 1
  pub entry_low : rp1_sram_base ≤ img.entry - 1
  pub entry_high : img.entry - 1 < rp1_sram_base + word_at bytes 8
  pub entry_is : img.entry / 2 ≡ word_at bytes 16 / 2
  pub stack_is : img.stack ≡ word_at bytes 20
  pub has_stack : 0 < img.stack
  pub checked : (word_at bytes 24 ≡ 0) ⊎ (crc32_ieee img.payload ≡ word_at bytes 24)

-- The header that is read is made of the first seven words.
abbrev pub header_of : List ℕ → ImgHeader
header_of bytes = record {
  magic = word_at bytes 0;
  header_len = word_at bytes 4;
  image_len = word_at bytes 8;
  load_addr = word_at bytes 12;
  entry = word_at bytes 16;
  stack = word_at bytes 20;
  crc32 = word_at bytes 24;
}

pub read_header-header_of :
    (bytes : List ℕ) → 28 ≤ length bytes → read_header bytes ≡ ok (header_of bytes)
unfolding read_header
read_header-header_of bytes h = ground arith

-- The header tests, one by one.
record IsPlausible (h : ImgHeader) (len : ℕ) : Type 0 where
  magic : h.magic ≡ rp1_img_magic
  header_len : rp1_header_len_min ≤ h.header_len
  some_image : 0 < h.image_len
  image_fits : h.image_len ≤ rp1_max_image_len
  in_file : h.header_len + h.image_len ≤ len
  load_addr : h.load_addr ≡ rp1_sram_base
  stack : 0 < h.stack

header_rejected-IsPlausible :
    (h : ImgHeader) (len : ℕ) → header_rejected h len ≡ false → IsPlausible h len
unfolding header_rejected
header_rejected-IsPlausible h len e = ground arith

entry_rejected_lem :
    (h : ImgHeader)
    → entry_rejected h ≡ false
    → h.load_addr + h.image_len < 2 ^ 32
    → (h.load_addr ≤ clear_thumb h.entry) × (clear_thumb h.entry < h.load_addr + h.image_len)
unfolding entry_rejected
entry_rejected_lem h e k = (ground arith, ground arith)

accept_header-IsLoadable :
    (bytes : List ℕ) (img : Rp1Image)
    → word_at bytes 16 < 2 ^ 32
    → accept_header bytes (header_of bytes) ≡ ok img
    → IsLoadable bytes img
unfolding accept_header
accept_header-IsLoadable bytes img small e =
    let (t1, e1) = guard-eq-ok (not (header_rejected (header_of bytes) (length bytes))) _ _ e in
    let (t2, e2) = guard-eq-ok (not (entry_rejected (header_of bytes))) _ _ e1 in
    let p : IsPlausible (header_of bytes) (length bytes) =
      header_rejected-IsPlausible (header_of bytes) (length bytes) (ground arith) in
    let r = entry_rejected_lem (header_of bytes) (ground arith) (omega arith) in
    let c = clear_thumb_lem (word_at bytes 16) small in
    let s = set_thumb_lem (word_at bytes 16) in
    record {
      named = p.magic;
      payload_is = ground arith;
      behind_header = p.header_len;
      inside_file = p.in_file;
      nonempty = p.some_image;
      fits = p.image_fits;
      at_sram = ground arith;
      is_thumb = ground (arith, s);
      entry_low = ground (arith, s, c);
      entry_high = ground (arith, s, c);
      entry_is = ground (arith, s);
      stack_is = ground arith;
      has_stack = ground arith;
      checked = ground arith;
    }

-- An accepted file yields an image that is safe to load and start.
pub parse_rp1_img-IsLoadable :
    (bytes : List ℕ) (img : Rp1Image)
    → IsBytes bytes
    → parse_rp1_img bytes ≡ ok img
    → IsLoadable bytes img
unfolding parse_rp1_img
parse_rp1_img-IsLoadable bytes img b e = elim (Bool-cases (ltb (length bytes) 0x20)) [
  | inl short ↦ absurd (ground arith)
  | inr long ↦
      let read : read_header bytes ≡ ok (header_of bytes) =
        read_header-header_of bytes (ground arith) in
      let small : word_at bytes 16 < 2 ^ 32 = word_at-lt bytes 16 b (ground arith) in
      accept_header-IsLoadable bytes img small (rw (long, read) at e)
]
