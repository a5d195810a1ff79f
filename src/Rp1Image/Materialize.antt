-- ===== src/Rp1Image/Materialize.antt =====
-- `build_from_rp1_elf` of rp1_chainboot_poc/src/rp1_image.rs: the image that the RP1 is loaded with, from
-- the load segments that the crate elf has put into place. That crate is the argument `materialize`.
use rp1_bootloader_po_c.Base.{
  ℕ, ◌||◌, not, ltb, if◌then◌else◌, List, Option, none, some, Result, BootError, ok, err, ok_or,
  guard, ◌>>=◌, ◌>>◌, length, bit_or, rp1_image_invalid, rp1_image_too_large,
}
use rp1_bootloader_po_c.Base.{◌==◌}
use rp1_bootloader_po_c.Base.Words.{u32_mod}
use rp1_bootloader_po_c.Rp1Image.{
  Rp1Image, ImageFeatures, is_valid_stack, le32, rp1_sram_base, rp1_max_image_len, rp1_elf,
}

-- What `elf::materialize_elf32_arm_le` reports: the image (`scratch[..image_len]`), the entry and the
-- stack.
pub record Materialized : Type 0 where
  pub image : List ℕ
  pub entry : ℕ
  pub stack : Option ℕ

-- `.ok().filter(...)` and the two fallbacks.
fits_u32 : Option ℕ → Option ℕ
fits_u32 none = none
fits_u32 (some x) = if ltb x u32_mod then some x else none

or_value : Option ℕ → ℕ → ℕ
or_value none d = d
or_value (some x) d = x

vector_stack : ImageFeatures → Result BootError ℕ → Option ℕ
vector_stack f (err e) = none
vector_stack f (ok stack) = if is_valid_stack f stack then some stack else none

or_else : Option ℕ → Option ℕ → Option ℕ
or_else none other = other
or_else (some x) other = some x

module _ (f : ImageFeatures) (materialize : List ℕ → ℕ → ℕ → Option Materialized) where
  pub build_from_rp1_elf : List ℕ → ℕ → ℕ → Result BootError Rp1Image
  build_from_rp1_elf elf_bytes scratch_len fallback_stack = do
    m ← ok_or (materialize elf_bytes rp1_sram_base scratch_len) rp1_image_invalid
    guard (not (length m.image == 0 || ltb rp1_max_image_len (length m.image))) rp1_image_too_large
    guard (ltb m.entry u32_mod) rp1_image_invalid
    let stack =
        or_value (or_else (vector_stack f (le32 m.image 0)) (fits_u32 m.stack)) fallback_stack
    guard (not (m.entry == 0 || stack == 0)) rp1_image_invalid
    ok (record {
      payload = m.image;
      load_addr = rp1_sram_base;
      entry = bit_or m.entry 1;
      stack = stack;
      source = rp1_elf;
    })
