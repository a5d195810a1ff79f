-- ===== src/Gzip.antt =====
-- rp1_chainboot_poc/src/gzip.rs: the kernel, plain or as a gzip member. Inflating is the crate
-- miniz_oxide, a parameter: what it puts in the output buffer, and its result.
pub mod Member
mod Tests
use rp1_bootloader_po_c.Base.{
  ℕ, ◌+◌, ◌-◌, ◌%◌, min, bit_and, Bool, true, false, not, ◌&&◌, ◌||◌, List, [], ◌∷◌, ◌==◌, ltb, leb,
  if◌then◌else◌, Option, none, some, Result, BootError, ok, err, guard, ok_or, ◌>>=◌, ◌>>◌, gzip,
  linux_image_invalid, length, drop, slice, take, get_or, get_range, eq_bytes,
}
use rp1_bootloader_po_c.Base.Words.{from_le_bytes, checked_add, usize_mod, u32_mod}

pub record KernelImageInfo : Type 0 where
  pub base : ℕ
  pub len : ℕ
  pub was_gzip : Bool

unfoldable pub is_gzip : List ℕ → Bool
is_gzip input = leb 2 (length input) && get_or input 0 0 == 0x1f && get_or input 1 0 == 0x8b

unfoldable pub looks_like_arm64_image : List ℕ → Bool
looks_like_arm64_image input =
    leb 64 (length input) && eq_bytes (slice input 56 60) (0x41 ∷ 0x52 ∷ 0x4d ∷ 0x64 ∷ [])

-- le16 and le32.
unfoldable pub le_word : ℕ → List ℕ → ℕ → Result BootError ℕ
le_word n input off = do
  bytes ← ok_or (get_range input off (off + n)) gzip
  ok (from_le_bytes bytes)

-- The bytes behind the first zero, and the offset that they begin at.
unfoldable pub skip_from : List ℕ → ℕ → Result BootError ℕ
skip_from [] off = err gzip
skip_from (b ∷ bs) off =
    let later = skip_from bs (off + 1) in if b == 0 then ok (off + 1) else later

unfoldable pub skip_cstr : List ℕ → ℕ → Result BootError ℕ
skip_cstr input off = skip_from (drop off input) off

-- `flg & mask != 0`.
abbrev pub has_flag : ℕ → ℕ → Bool
has_flag flg mask = not (bit_and flg mask == 0)

unfoldable pub skip_extra : List ℕ → ℕ → ℕ → Result BootError ℕ
skip_extra input flg off =
    if has_flag flg 0x04
    then (do
      xlen ← le_word 2 input off
      start ← ok_or (checked_add off 2) gzip
      ok_or (checked_add start xlen) gzip)
    else ok off

unfoldable pub skip_string : List ℕ → ℕ → ℕ → ℕ → Result BootError ℕ
skip_string input flg mask off = if has_flag flg mask then skip_cstr input off else ok off

unfoldable pub skip_check : ℕ → ℕ → Result BootError ℕ
skip_check flg off = if has_flag flg 0x02 then ok_or (checked_add off 2) gzip else ok off

-- The offset behind the optional fields of the header.
unfoldable pub skip_fields : List ℕ → ℕ → Result BootError ℕ
skip_fields input flg = do
  extra ← skip_extra input flg 10
  name ← skip_string input flg 0x08 extra
  comment ← skip_string input flg 0x10 name
  skip_check flg comment

-- The header of a member, and that the only method is deflate.
unfoldable pub is_member : List ℕ → Bool
is_member input =
    leb 18 (length input)
    && get_or input 0 0 == 0x1f
    && get_or input 1 0 == 0x8b
    && get_or input 2 0 == 8

unfoldable pub parse_gzip : List ℕ → Result BootError (List ℕ × ℕ)
parse_gzip input = do
  guard (is_member input) gzip
  off ← skip_fields input (get_or input 3 0)
  guard (ltb off (length input - 8)) gzip
  isize ← le_word 4 input (length input - 4)
  ok (slice input off (length input - 8), isize)

-- What `decompress_slice_iter_to_slice` does with an output buffer of a size: the buffer, and the
-- length of the output unless it fails.
pub record Inflate : Type 0 where
  pub run : List ℕ → ℕ → List ℕ × Option ℕ

module _ (inflate : Inflate) where
  -- The length of the output: the one that is reported, or the one of the trailer where the output
  -- starts like an Image.
  unfoldable pub output_len : List ℕ → Option ℕ → ℕ → ℕ → Result BootError ℕ
  output_len out (some len) isize output_max = ok len
  output_len out none isize output_max =
      if leb isize output_max && looks_like_arm64_image (take (min isize 64) out)
      then ok isize
      else err gzip

  -- The result, and the bytes at `output_base` afterwards.
  unfoldable pub decompress_kernel_if_needed :
      List ℕ → ℕ → ℕ → Result BootError (KernelImageInfo × List ℕ)
  decompress_kernel_if_needed input output_base output_max =
      if not (is_gzip input)
      then (do
        guard (leb (length input) output_max) linux_image_invalid
        ok (record { base = output_base; len = length input; was_gzip = false }, input))
      else (do
        member ← parse_gzip input
        let (out, reported) = inflate.run member.0 output_max
        len ← output_len out reported member.1 output_max
        guard (looks_like_arm64_image (take len out)) gzip
        ok (record { base = output_base; len = len; was_gzip = true }, out))
