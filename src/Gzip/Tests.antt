-- ===== src/Gzip/Tests.antt =====
-- The gzip properties at a member with a file name.
use rp1_bootloader_po_c.Base.{
  ◌⊎◌, ℕ, ◌≡◌, ◌≤◌, refl, true, false, List, [], ◌∷◌, ◌++◌, replicate, ok, length, slice, take,
  none,
}
use rp1_bootloader_po_c.Gzip.{
  KernelImageInfo, Inflate, is_gzip, parse_gzip, skip_fields, skip_extra, skip_string, skip_check,
  skip_cstr, skip_from, le_word, is_member, looks_like_arm64_image, output_len,
  decompress_kernel_if_needed,
}
use rp1_bootloader_po_c.Gzip.Member.{decompress_kernel_if_needed-accepts}

abbrev member : List ℕ
member =
    (0x1f ∷ 0x8b ∷ 8 ∷ 8 ∷ replicate 6 0)
    ++ ((107 ∷ 0 ∷ 1 ∷ 2 ∷ 3 ∷ []) ++ (replicate 4 9 ++ (64 ∷ 0 ∷ 0 ∷ 0 ∷ [])))

parsed : parse_gzip member ≡ ok (1 ∷ 2 ∷ 3 ∷ [], 64)
unfolding parse_gzip is_member skip_fields skip_extra skip_string skip_check skip_cstr skip_from
    le_word
parsed = refl

abbrev kernel : List ℕ
kernel = replicate 56 0 ++ (0x41 ∷ 0x52 ∷ 0x4d ∷ 0x64 ∷ replicate 4 0)

abbrev failing : Inflate
failing = record { run = λ body output_max. (kernel, none) }

abbrev info : KernelImageInfo
info = record { base = 4096; len = 64; was_gzip = true }

decompressed : decompress_kernel_if_needed failing member 4096 1000 ≡ ok (info, kernel)
unfolding decompress_kernel_if_needed is_gzip output_len looks_like_arm64_image parse_gzip is_member
    skip_fields skip_extra skip_string skip_check skip_cstr skip_from le_word
decompressed = refl

decompress_kernel_if_needed-accepts_example :
    (info.base ≡ 4096)
    × (info.was_gzip ≡ is_gzip member)
    × (((is_gzip member ≡ false)
          × (kernel ≡ member)
          × (info.len ≡ length member)
          × (info.len ≤ 1000))
        ⊎ ((is_gzip member ≡ true)
            × (64 ≤ length (take info.len kernel))
            × (slice (take info.len kernel) 56 60 ≡ 0x41 ∷ 0x52 ∷ 0x4d ∷ 0x64 ∷ [])))
decompress_kernel_if_needed-accepts_example =
    decompress_kernel_if_needed-accepts failing member 4096 1000 info kernel decompressed
