-- ===== src/Linux.antt =====
-- rp1_chainboot_poc/src/linux.rs: the check of the arm64 kernel image and the cleaning of the data
-- cache.
mod Tests
pub mod Image
pub mod Cache
pub mod Sdhc
use rp1_bootloader_po_c.Base.{
  ℕ, zero, suc, ◌+◌, ◌-◌, ◌*◌, ◌/◌, ◌%◌, ◌^◌, min, bit_and, Bool, true, false, not, ◌&&◌, ◌||◌,
  Option, List, [], ◌∷◌, ltb, leb, ◌==◌, if◌then◌else◌, eq_bytes, slice, get_range, replicate,
  Result, BootError, ok, err, guard, ok_or, ◌>>=◌, ◌>>◌, linux_image_invalid, sdhc_quiesce_failure,
}
use rp1_bootloader_po_c.Base.Words.{from_le_bytes, usize_mod}
use rp1_bootloader_po_c.Placement.{Memory, write_bytes}
use rp1_bootloader_po_c.Memory.{read_bytes}

abbrev pub arm64_image_magic : List ℕ
arm64_image_magic = 0x41 ∷ 0x52 ∷ 0x4d ∷ 0x64 ∷ []

abbrev pub arm64_image_base_align : ℕ
arm64_image_base_align = 0x20_0000

pub record LinuxImage : Type 0 where
  pub entry : ℕ
  pub image_size : ℕ
  pub text_offset : ℕ
  pub flags : ℕ
  pub image_base : ℕ

unfoldable pub le64 : List ℕ → ℕ → Result BootError ℕ
le64 bytes off = do
  b ← ok_or (get_range bytes off (off + 8)) linux_image_invalid
  ok (from_le_bytes b)

-- `write_bytes(dst, 0, n)`.
unfoldable pub zero_fill : Memory → ℕ → ℕ → Memory
zero_fill m dst n a = if leb dst a && ltb a (dst + n) then 0 else m a

-- Zero-fill the image behind the loaded file, where its header says that it is larger.
unfoldable pub clear_tail : Memory → ℕ → ℕ → ℕ → Memory
unfolding zero_fill
clear_tail m base loaded_len image_size =
    if ltb loaded_len image_size
    then zero_fill m (base + loaded_len) (image_size - loaded_len)
    else m

-- The part behind the reads of the header fields.
unfoldable pub place_image : ℕ → ℕ → ℕ → ℕ → ℕ → ℕ → Memory → Result BootError (LinuxImage × Memory)
place_image base loaded_len max_len text_offset header_size flags m = do
  let image_size = if header_size == 0 then loaded_len else header_size
  guard (leb text_offset base) linux_image_invalid
  let image_base = base - text_offset
  guard (bit_and image_base (arm64_image_base_align - 1) == 0) linux_image_invalid
  guard (leb image_size max_len) linux_image_invalid
  ok (
    record {
      entry = base;
      image_size = image_size;
      text_offset = text_offset;
      flags = flags;
      image_base = image_base;
    },
    clear_tail m base loaded_len image_size,
  )

unfoldable pub validate_arm64_image : ℕ → ℕ → ℕ → Memory → Result BootError (LinuxImage × Memory)
validate_arm64_image base loaded_len max_len m = do
  guard (leb 64 loaded_len) linux_image_invalid
  let hdr = read_bytes m base 64
  text_offset ← le64 hdr 8
  guard (eq_bytes (slice hdr 56 60) arm64_image_magic) linux_image_invalid
  image_size ← le64 hdr 16
  flags ← le64 hdr 24
  place_image base loaded_len max_len text_offset image_size flags m

-- `while p < end { dc cvac, p; p += line; }`: the addresses that are cleaned, in order.
unfoldable pub clean_loop : ℕ → ℕ → ℕ → List ℕ
clean_loop zero p end = []
clean_loop (suc fuel) p end =
    let rest = clean_loop fuel (p + 64) end in if ltb p end then p ∷ rest else []

-- `addr.saturating_add(len).next_multiple_of(64)`.
unfoldable pub clean_end : ℕ → ℕ → ℕ
clean_end addr len = (min (addr + len) (usize_mod - 1) + 63) / 64 * 64

unfoldable pub clean_dcache_poc : ℕ → ℕ → List ℕ
unfolding clean_loop clean_end
clean_dcache_poc addr len =
    if len == 0
    then []
    else clean_loop (len / 64 + 2) (bit_and addr (usize_mod - 64)) (clean_end addr len)
