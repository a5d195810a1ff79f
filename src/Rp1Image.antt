-- ===== src/Rp1Image.antt =====
-- rp1_chainboot_poc/src/rp1_image.rs: RP1 firmware images, as a raw image with a header
-- (/RP1.img), as two firmware parts, or as an ELF file.
mod Tests
pub mod Crc
pub mod Img
pub mod Materialize
pub mod Elf
use rp1_bootloader_po_c.Base.{
  ℕ, zero, suc, ◌+◌, ◌-◌, ◌/◌, ◌%◌, ◌^◌, ◌≤◌, min, bit_and, bit_or, bit_xor, Bool, true, false, not,
  ◌&&◌, ◌||◌, Option, none, some, List, [], ◌∷◌, ◌++◌, ltb, leb, ◌==◌, if◌then◌else◌, length, slice,
  get_range, copy_at, take, Result, BootError, ok, err, guard, ok_or, ◌>>=◌, ◌>>◌,
  rp1_image_invalid, rp1_image_crc_mismatch, rp1_image_too_large, address_overflow,
}
use rp1_bootloader_po_c.Base.Words.{from_le_bytes, checked_add, u32_mod}

-- `u32::from_le_bytes(*b"RP1I")`.
abbrev pub rp1_img_magic : ℕ
rp1_img_magic = 0x4931_5052

abbrev pub rp1_sram_base : ℕ
rp1_sram_base = 0x2000_0000

abbrev pub rp1_fallback_load_addr : ℕ
rp1_fallback_load_addr = 0x2000_0000

abbrev pub rp1_fallback_entry : ℕ
rp1_fallback_entry = 0x2000_0141

abbrev pub rp1_fallback_stack : ℕ
rp1_fallback_stack = 0x1000_30d0

abbrev pub rp1_max_image_len : ℕ
rp1_max_image_len = 0x1_0000

abbrev pub rp1_header_len_min : ℕ
rp1_header_len_min = 0x20

pub data Rp1ImageSource : Type 0 where
  rp1_elf rp1_img fw_parts : Rp1ImageSource

pub record Rp1Image : Type 0 where
  pub payload : List ℕ
  pub load_addr : ℕ
  pub entry : ℕ
  pub stack : ℕ
  pub source : Rp1ImageSource

unfoldable pub le32 : List ℕ → ℕ → Result BootError ℕ
le32 bytes off = do
  end ← ok_or (checked_add off 4) address_overflow
  src ← ok_or (get_range bytes off end) rp1_image_invalid
  ok (from_le_bytes src)

unfoldable pub le16 : List ℕ → ℕ → Result BootError ℕ
le16 bytes off = do
  end ← ok_or (checked_add off 2) address_overflow
  src ← ok_or (get_range bytes off end) rp1_image_invalid
  ok (from_le_bytes src)

-- The two features that widen the accepted stacks and the number of load segments.
pub record ImageFeatures : Type 0 where
  pub allow_local_dsram_vector_stack : Bool
  pub amp_proc1_profile : Bool
  pub amp_observation : Bool
  pub amp_proc1 : Bool

unfoldable pub is_valid_stack : ImageFeatures → ℕ → Bool
is_valid_stack f stack =
    leb rp1_sram_base stack && leb stack (rp1_sram_base + rp1_max_image_len)
    || f.allow_local_dsram_vector_stack && leb 0x1000_2000 stack && leb stack 0x1000_4000

-- One round of the inner loop of `crc32_ieee`; `0u32.wrapping_sub(crc & 1)` is the mask.
unfoldable pub crc_bit : ℕ → ℕ
crc_bit crc =
    let mask = (u32_mod - bit_and crc 1) % u32_mod in bit_xor (crc / 2) (bit_and 0xedb8_8320 mask)

unfoldable pub crc_bits : ℕ → ℕ → ℕ
unfolding crc_bit
crc_bits zero crc = crc
crc_bits (suc n) crc = crc_bits n (crc_bit crc)

unfoldable pub crc_byte : ℕ → ℕ → ℕ
unfolding crc_bits
crc_byte crc byte = crc_bits 8 (bit_xor crc byte)

unfoldable pub crc_loop : ℕ → List ℕ → ℕ
unfolding crc_byte
crc_loop crc [] = crc
crc_loop crc (byte ∷ bytes) = crc_loop (crc_byte crc byte) bytes

unfoldable pub crc32_ieee : List ℕ → ℕ
unfolding crc_loop
crc32_ieee bytes = u32_mod - 1 - crc_loop 0xffff_ffff bytes

checksum_onto : ℕ → List ℕ → ℕ
checksum_onto acc [] = acc
checksum_onto acc (b ∷ bytes) = checksum_onto ((acc + b) % u32_mod) bytes

unfoldable pub checksum32 : List ℕ → ℕ
unfolding checksum_onto
checksum32 = checksum_onto 0

-- `entry & !1` and `entry | 1`.
unfoldable pub clear_thumb : ℕ → ℕ
clear_thumb entry = bit_and entry (2 ^ 32 - 2)

unfoldable pub set_thumb : ℕ → ℕ
set_thumb entry = bit_or entry 1

pub record ImgHeader : Type 0 where
  pub magic : ℕ
  pub header_len : ℕ
  pub image_len : ℕ
  pub load_addr : ℕ
  pub entry : ℕ
  pub stack : ℕ
  pub crc32 : ℕ

unfoldable pub read_header : List ℕ → Result BootError ImgHeader
unfolding le32
read_header bytes = do
  magic ← le32 bytes 0
  header_len ← le32 bytes 4
  image_len ← le32 bytes 8
  load_addr ← le32 bytes 12
  entry ← le32 bytes 16
  stack ← le32 bytes 20
  crc32 ← le32 bytes 24
  ok (record {
    magic = magic;
    header_len = header_len;
    image_len = image_len;
    load_addr = load_addr;
    entry = entry;
    stack = stack;
    crc32 = crc32;
  })

-- `header_len.checked_add(image_len).is_none_or(|end| end > bytes.len())`.
abbrev ends_outside : Option ℕ → ℕ → Bool
ends_outside none len = true
ends_outside (some end) len = ltb len end

unfoldable pub header_rejected : ImgHeader → ℕ → Bool
header_rejected h len =
    not (h.magic == rp1_img_magic)
    || ltb h.header_len rp1_header_len_min
    || ltb len h.header_len
    || h.image_len == 0
    || ltb rp1_max_image_len h.image_len
    || ends_outside (checked_add h.header_len h.image_len) len
    || not (h.load_addr == rp1_sram_base)
    || h.stack == 0

unfoldable pub entry_rejected : ImgHeader → Bool
entry_rejected h =
    let entry_addr = clear_thumb h.entry in
    ltb entry_addr h.load_addr || leb (min (h.load_addr + h.image_len) (u32_mod - 1)) entry_addr

-- The part of `parse_rp1_img` behind the reads.
unfoldable pub accept_header : List ℕ → ImgHeader → Result BootError Rp1Image
accept_header bytes h = do
  guard (not (header_rejected h (length bytes))) rp1_image_invalid
  guard (not (entry_rejected h)) rp1_image_invalid
  let payload = slice bytes h.header_len (h.header_len + h.image_len)
  guard (h.crc32 == 0 || crc32_ieee payload == h.crc32) rp1_image_crc_mismatch
  ok (record {
    payload = payload;
    load_addr = h.load_addr;
    entry = set_thumb h.entry;
    stack = h.stack;
    source = rp1_img;
  })

unfoldable pub parse_rp1_img : List ℕ → Result BootError Rp1Image
parse_rp1_img bytes = do
  guard (not (ltb (length bytes) rp1_header_len_min)) rp1_image_invalid
  h ← read_header bytes
  accept_header bytes h

-- The scratch range and its bytes come back in the second part.
unfoldable pub build_from_fw_parts : List ℕ → List ℕ → List ℕ → Result BootError (Rp1Image × List ℕ)
build_from_fw_parts fw1 fw2 scratch = do
  total ← ok_or (checked_add (length fw1) (length fw2)) address_overflow
  guard (not (total == 0 || ltb rp1_max_image_len total || ltb (length scratch) total))
      rp1_image_too_large
  let scratch' = copy_at (copy_at scratch 0 fw1) (length fw1) fw2
  ok (
    record {
      payload = take total scratch';
      load_addr = rp1_fallback_load_addr;
      entry = set_thumb rp1_fallback_entry;
      stack = rp1_fallback_stack;
      source = fw_parts;
    },
    scratch',
  )
