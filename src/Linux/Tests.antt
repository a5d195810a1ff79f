-- ===== src/Linux/Tests.antt =====
-- The properties of the kernel's hand-over at a small image.
use rp1_bootloader_po_c.Base.{arith}
use rp1_bootloader_po_c.Base.{ℕ, ◌+◌, ◌≤◌, ◌<◌, ◌≡◌, refl, List, ◌∷◌, ◌++◌, ok, replicate}
use rp1_bootloader_po_c.Placement.{Memory, write_bytes}
use rp1_bootloader_po_c.Memory.{read_bytes}
use rp1_bootloader_po_c.Linux.{
  LinuxImage, validate_arm64_image, place_image, le64, clear_tail, clean_dcache_poc,
}
use rp1_bootloader_po_c.Linux.Image.{IsBootable, validate_arm64_image-IsBootable}
use rp1_bootloader_po_c.Linux.Cache.{IsCleaned, AllAligned, clean_dcache_poc-IsCleaned}

-- A header with an image size of 128 bytes and no text offset.
abbrev header : List ℕ
header = replicate 16 0 ++ (128 ∷ replicate 39 0) ++ (0x41 ∷ 0x52 ∷ 0x4d ∷ 0x64 ∷ replicate 4 0)

abbrev loaded : Memory
loaded = write_bytes (λ a. 255) 0x20_0000 header

abbrev image : LinuxImage
image = record {
  entry = 0x20_0000;
  image_size = 128;
  text_offset = 0;
  flags = 0;
  image_base = 0x20_0000;
}

validated :
    validate_arm64_image 0x20_0000 64 4096 loaded ≡ ok (image, clear_tail loaded 0x20_0000 64 128)
unfolding validate_arm64_image place_image le64 read_bytes
validated = refl

validate_arm64_image-IsBootable_example :
    IsBootable 0x20_0000 64 4096 loaded image (clear_tail loaded 0x20_0000 64 128)
validate_arm64_image-IsBootable_example =
    validate_arm64_image-IsBootable 0x20_0000 64 4096 loaded (clear_tail loaded 0x20_0000 64 128)
      image validated

clean_dcache_poc-IsCleaned_example :
    ((a : ℕ) → 1000 ≤ a → a < 1000 + 200 → IsCleaned a (clean_dcache_poc 1000 200))
    × AllAligned (clean_dcache_poc 1000 200)
clean_dcache_poc-IsCleaned_example = clean_dcache_poc-IsCleaned 1000 200 (omega arith)
