-- ===== src/Rp1Image/Img/RoundTrip.antt =====
-- A file laid out as an RP1 image is read back as the image that it was made from.
use rp1_bootloader_po_c.Base.{
  ℕ, ◌+◌, ◌-◌, ◌^◌, ◌≤◌, ◌<◌, ◌≡◌, refl, ap, false, List, ◌++◌, arith, ltb, length, slice, ok,
  take-length, drop-length, length-append,
}
use rp1_bootloader_po_c.Rp1Image.Crc.{crc32_ieee-lt}
use rp1_bootloader_po_c.Base.Words.{to_le_bytes}
use rp1_bootloader_po_c.Rp1Image.{
  Rp1Image, ImgHeader, rp1_img, rp1_sram_base, rp1_max_image_len, rp1_img_magic, header_rejected,
  entry_rejected, set_thumb, crc32_ieee, accept_header, parse_rp1_img,
}
use rp1_bootloader_po_c.Rp1Image.Img.{header_of, clear_thumb_lem, read_header-header_of}

-- What the file is made from: `extra` is the header behind its seven words.
pub record ImgParts : Type 0 where
  pub entry : ℕ
  pub stack : ℕ
  pub extra : List ℕ
  pub payload : List ℕ
  pub trailing : List ℕ

unfoldable pub header_bytes : ImgParts → List ℕ
header_bytes p =
    to_le_bytes 4 rp1_img_magic
    ++ (to_le_bytes 4 (28 + length p.extra)
        ++ (to_le_bytes 4 (length p.payload)
            ++ (to_le_bytes 4 rp1_sram_base
                ++ (to_le_bytes 4 p.entry
                    ++ (to_le_bytes 4 p.stack
                        ++ (to_le_bytes 4 (crc32_ieee p.payload) ++ p.extra))))))

unfoldable pub img_file : ImgParts → List ℕ
unfolding header_bytes
img_file p = header_bytes p ++ (p.payload ++ p.trailing)

-- The parts that a header can express and the loader starts.
pub record IsStartable (p : ImgParts) : Type 0 where
  pub header_room : 4 ≤ length p.extra
  pub header_small : 28 + length p.extra < 2 ^ 32
  pub some_payload : 0 < length p.payload
  pub payload_fits : length p.payload ≤ rp1_max_image_len
  pub entry_low : rp1_sram_base ≤ p.entry
  pub entry_high : p.entry < rp1_sram_base + length p.payload
  pub has_stack : 0 < p.stack
  pub stack_word : p.stack < 2 ^ 32

abbrev pub image_of : ImgParts → Rp1Image
image_of p = record {
  payload = p.payload;
  load_addr = rp1_sram_base;
  entry = set_thumb p.entry;
  stack = p.stack;
  source = rp1_img;
}

abbrev expected : ImgParts → ImgHeader
expected p = record {
  magic = rp1_img_magic;
  header_len = 28 + length p.extra;
  image_len = length p.payload;
  load_addr = rp1_sram_base;
  entry = p.entry;
  stack = p.stack;
  crc32 = crc32_ieee p.payload;
}

length-header_bytes : (p : ImgParts) → length (header_bytes p) ≡ 28 + length p.extra
unfolding header_bytes
length-header_bytes p = omega arith

img_file_lem : (p : ImgParts) → img_file p ≡ header_bytes p ++ (p.payload ++ p.trailing)
unfolding img_file
img_file_lem p = refl

length-img_file :
    (p : ImgParts)
    → length (img_file p) ≡ 28 + length p.extra + (length p.payload + length p.trailing)
length-img_file p = omega (
  arith,
  ap length (img_file_lem p),
  length-header_bytes p,
  length-append (header_bytes p) (p.payload ++ p.trailing),
  length-append p.payload p.trailing,
)

header_of-img_file :
    (p : ImgParts)
    → IsStartable p
    → crc32_ieee p.payload < 2 ^ 32
    → header_of (img_file p) ≡ expected p
unfolding img_file
header_of-img_file p h c = ground arith

slice_payload : (a p r : List ℕ) → slice (a ++ (p ++ r)) (length a) (length a + length p) ≡ p
slice_payload a p r =
    let e : length a + length p - length a ≡ length p = omega arith in
    rw (e, drop-length a (p ++ r)) (take-length p r)

slice-img_file :
    (p : ImgParts)
    → slice (img_file p) (28 + length p.extra) (28 + length p.extra + length p.payload) ≡ p.payload
slice-img_file p =
    rw (img_file_lem p, ← length-header_bytes p)
      (slice_payload (header_bytes p) p.payload p.trailing)

expected_plausible :
    (p : ImgParts) → IsStartable p → header_rejected (expected p) (length (img_file p)) ≡ false
unfolding header_rejected
expected_plausible p h = ground (arith, length-img_file p)

expected_inside : (p : ImgParts) → IsStartable p → entry_rejected (expected p) ≡ false
unfolding entry_rejected
expected_inside p h = ground (arith, clear_thumb_lem p.entry (omega arith))

accept_header-expected :
    (p : ImgParts) → IsStartable p → accept_header (img_file p) (expected p) ≡ ok (image_of p)
unfolding accept_header
accept_header-expected p h =
    rw (expected_plausible p h, expected_inside p h, slice-img_file p) (ground arith)

-- A file made from startable parts, with any further header bytes and any trailing bytes, is
-- accepted and read back as exactly the image that it was made from.
pub parse_rp1_img-img_file :
    (p : ImgParts) → IsStartable p → parse_rp1_img (img_file p) ≡ ok (image_of p)
unfolding parse_rp1_img
parse_rp1_img-img_file p h =
    let long : ltb (length (img_file p)) 32 ≡ false = ground (arith, length-img_file p) in
    let read = read_header-header_of (img_file p) (omega (arith, length-img_file p)) in
    rw (long, read, header_of-img_file p h (crc32_ieee-lt p.payload)) (accept_header-expected p h)
