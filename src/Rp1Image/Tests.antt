-- ===== src/Rp1Image/Tests.antt =====
-- The properties of the RP1 images at a small raw image and a small ELF file.
use rp1_bootloader_po_c.Rp1Image.Elf.Segments.{segments, word16, word32}
use rp1_bootloader_po_c.Base.{arith}
use rp1_bootloader_po_c.Base.{
  ℕ, ◌≡◌, ◌≢◌, ◌≤◌, ◌<◌, refl, true, false, List, [], ◌∷◌, ◌++◌, All, length, replicate, ok,
  all_bytes-IsBytes,
}
use rp1_bootloader_po_c.Base.Words.{to_le_bytes}
use rp1_bootloader_po_c.Rp1Image.{ImageFeatures, parse_rp1_img, crc32_ieee, le32, le16}
use rp1_bootloader_po_c.Rp1Image.Crc.{crc32_ieee_detects}
use rp1_bootloader_po_c.Rp1Image.Img.{IsLoadable, parse_rp1_img-IsLoadable}
use rp1_bootloader_po_c.Rp1Image.Img.RoundTrip.{
  ImgParts, IsStartable, img_file, image_of, header_bytes, parse_rp1_img-img_file,
}
use rp1_bootloader_po_c.Rp1Image.Elf.{
  Rp1ElfInfo, Rp1ElfLoad, inspect_rp1_elf, check_ident, load_loop, load_step, push_load, read_load,
  check_load, check_profile, read_in_load, read_loaded_bytes, read_loaded_u32, max_logged_loads,
}
use rp1_bootloader_po_c.Rp1Image.Elf.Loads.{IsSafeLoad, inspect_rp1_elf-IsSafeLoad}

crc32_ieee_detects_example : crc32_ieee (1 ∷ 3 ∷ 2 ∷ []) ≢ crc32_ieee (1 ∷ 4 ∷ 2 ∷ [])
crc32_ieee_detects_example =
    crc32_ieee_detects (1 ∷ []) (2 ∷ []) 3 4 (omega arith, tt) (omega arith, tt) (omega arith)
      (omega arith) (λ e. omega arith)

abbrev parts : ImgParts
parts = record {
  entry = 0x2000_0002;
  stack = 0x2000_1000;
  extra = replicate 4 0;
  payload = 10 ∷ 20 ∷ 30 ∷ 40 ∷ [];
  trailing = 99 ∷ [];
}

parts-IsStartable : IsStartable parts
parts-IsStartable = record {
  header_room = omega arith;
  header_small = omega arith;
  some_payload = omega arith;
  payload_fits = omega arith;
  entry_low = omega arith;
  entry_high = omega arith;
  has_stack = omega arith;
  stack_word = omega arith;
}

parse_rp1_img-img_file_example : parse_rp1_img (img_file parts) ≡ ok (image_of parts)
parse_rp1_img-img_file_example = parse_rp1_img-img_file parts parts-IsStartable

img_file_bytes : All (λ b. b < 256) (img_file parts)
unfolding img_file header_bytes crc32_ieee
img_file_bytes = all_bytes-IsBytes (img_file parts) refl

parsed : parse_rp1_img (img_file parts) ≡ ok (image_of parts)
parsed = parse_rp1_img-img_file parts parts-IsStartable

parse_rp1_img-IsLoadable_example : IsLoadable (img_file parts) (image_of parts)
parse_rp1_img-IsLoadable_example =
    parse_rp1_img-IsLoadable (img_file parts) (image_of parts) img_file_bytes parsed

-- One segment of eight bytes at the start of the SRAM: a stack pointer and a reset vector.
abbrev elf : List ℕ
elf =
    (0x7f ∷ 69 ∷ 76 ∷ 70 ∷ 1 ∷ 1 ∷ replicate 12 0)
    ++ (to_le_bytes 2 40
        ++ (replicate 4 0
            ++ (to_le_bytes 4 0x2000_0005
                ++ (to_le_bytes 4 52
                    ++ (replicate 10 0
                        ++ (to_le_bytes 2 32
                            ++ (to_le_bytes 2 1
                                ++ (replicate 6 0
                                    ++ (to_le_bytes 4 1
                                        ++ (to_le_bytes 4 84
                                            ++ (to_le_bytes 4 0x2000_0000
                                                ++ (to_le_bytes 4 0x2000_0000
                                                    ++ (to_le_bytes 4 8
                                                        ++ (to_le_bytes 4 16
                                                            ++ (to_le_bytes 4 5
                                                            ++ (to_le_bytes 4 4
                                                            ++ (to_le_bytes 4 0x2000_1000
                                                            ++ to_le_bytes 4
                                                            0x2000_0005)))))))))))))))))

abbrev profile : ImageFeatures
profile = record {
  allow_local_dsram_vector_stack = false;
  amp_proc1_profile = true;
  amp_observation = false;
  amp_proc1 = false;
}

abbrev segment : Rp1ElfLoad
segment = record {
  file_offset = 84;
  vaddr = 0x2000_0000;
  paddr = 0x2000_0000;
  filesz = 8;
  memsz = 16;
  flags = 5;
  align = 4;
}

abbrev info : Rp1ElfInfo
info = record {
  entry = 0x2000_0005;
  vector0_sp = 0x2000_1000;
  vector1_reset = 0x2000_0005;
  phnum = 1;
  loads = segment ∷ [];
}

inspected : inspect_rp1_elf profile elf ≡ ok info
unfolding inspect_rp1_elf check_ident load_loop load_step push_load read_load check_load
    check_profile read_in_load read_loaded_bytes read_loaded_u32 le32 le16 max_logged_loads
inspected = refl

inspect_rp1_elf-IsSafeLoad_example :
    (info.loads ≡ segments elf (word32 elf 28) (word16 elf 42) (word16 elf 44) 0)
    × (0 < length info.loads)
    × (length info.loads ≤ max_logged_loads profile)
    × All (IsSafeLoad profile (length elf)) info.loads
inspect_rp1_elf-IsSafeLoad_example = inspect_rp1_elf-IsSafeLoad profile elf info inspected

segment-IsSafeLoad : IsSafeLoad profile (length elf) segment
segment-IsSafeLoad = (inspect_rp1_elf-IsSafeLoad profile elf info inspected).3.0

found : read_loaded_bytes elf (segment ∷ []) 0x2000_0004 4 ≡ ok (to_le_bytes 4 0x2000_0005)
unfolding read_loaded_bytes read_in_load
found = refl
