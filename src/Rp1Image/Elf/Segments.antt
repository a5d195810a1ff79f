-- ===== src/Rp1Image/Elf/Segments.antt =====
-- The program headers of an ELF file that ask to be loaded, read off the bytes of the file, and that the
-- loop over the headers finds them all.
use rp1_bootloader_po_c.Base.{Bool}
use rp1_bootloader_po_c.Base.{
  ℕ, zero, suc, ◌+◌, ◌*◌, ◌≡◌, sym, ap, ◌∙◌, List, [], ◌∷◌, ◌++◌, append-nil, append_assoc, slice,
  ok, not, ltb, leb, ◌==◌, if◌then◌else◌, length, arith, Bool-cases, inl, inr, bind-eq-ok,
  guard-eq-ok, ok_or, ok_or-eq-ok, ok_injective, get_range, get_range-slice, address_overflow,
  rp1_image_invalid, refl,
}
use rp1_bootloader_po_c.Base.Words.{from_le_bytes, checked_add, checked_mul}
use rp1_bootloader_po_c.Rp1Image.{ImageFeatures, le16, le32}
use rp1_bootloader_po_c.Rp1Image.Elf.{
  Rp1ElfLoad, read_load, check_load, load_step, load_loop, push_load, pt_load, elf32_phdr_len,
  max_logged_loads,
}

abbrev pub word16 : List ℕ → ℕ → ℕ
word16 elf off = from_le_bytes (slice elf off (off + 2))

abbrev pub word32 : List ℕ → ℕ → ℕ
word32 elf off = from_le_bytes (slice elf off (off + 4))

abbrev pub segment_at : List ℕ → ℕ → Rp1ElfLoad
segment_at elf ph = record {
  file_offset = word32 elf (ph + 4);
  vaddr = word32 elf (ph + 8);
  paddr = word32 elf (ph + 12);
  filesz = word32 elf (ph + 16);
  memsz = word32 elf (ph + 20);
  flags = word32 elf (ph + 24);
  align = word32 elf (ph + 28);
}

-- The segments of type PT_LOAD among `n` headers of the given size, from header `index` on.
unfoldable pub segments : List ℕ → ℕ → ℕ → ℕ → ℕ → List Rp1ElfLoad
segments elf phoff phentsize zero index = []
segments elf phoff phentsize (suc n) index =
    let rest = segments elf phoff phentsize n (index + 1) in
    if word32 elf (phoff + index * phentsize) == pt_load
    then segment_at elf (phoff + index * phentsize) ∷ rest
    else rest

pub le32-word : (elf : List ℕ) (off w : ℕ) → le32 elf off ≡ ok w → w ≡ word32 elf off
unfolding le32
le32-word elf off w e =
    let (end, h1, e1) = bind-eq-ok (ok_or (checked_add off 4) address_overflow) _ e in
    let (src, h2, e2) = bind-eq-ok (ok_or (get_range elf off end) rp1_image_invalid) _ e1 in
    let is_end : end ≡ off + 4 = ground arith in
    let read = get_range-slice elf off end src (ok_or-eq-ok _ _ h2) in
    sym (ok_injective e2) ∙ ap from_le_bytes (rw is_end at read)

pub le16-word : (elf : List ℕ) (off w : ℕ) → le16 elf off ≡ ok w → w ≡ word16 elf off
unfolding le16
le16-word elf off w e =
    let (end, h1, e1) = bind-eq-ok (ok_or (checked_add off 2) address_overflow) _ e in
    let (src, h2, e2) = bind-eq-ok (ok_or (get_range elf off end) rp1_image_invalid) _ e1 in
    let is_end : end ≡ off + 2 = ground arith in
    let read = get_range-slice elf off end src (ok_or-eq-ok _ _ h2) in
    sym (ok_injective e2) ∙ ap from_le_bytes (rw is_end at read)

read_load-segment_at :
    (elf : List ℕ) (ph : ℕ) (load : Rp1ElfLoad)
    → read_load elf ph ≡ ok load
    → load ≡ segment_at elf ph
unfolding read_load
read_load-segment_at elf ph load e =
    let (a, h1, e1) = bind-eq-ok (le32 elf (ph + 4)) _ e in
    let (b, h2, e2) = bind-eq-ok (le32 elf (ph + 8)) _ e1 in
    let (c, h3, e3) = bind-eq-ok (le32 elf (ph + 12)) _ e2 in
    let (d, h4, e4) = bind-eq-ok (le32 elf (ph + 16)) _ e3 in
    let (m, h5, e5) = bind-eq-ok (le32 elf (ph + 20)) _ e4 in
    let (f, h6, e6) = bind-eq-ok (le32 elf (ph + 24)) _ e5 in
    let (g, h7, e7) = bind-eq-ok (le32 elf (ph + 28)) _ e6 in
    rw
      (
        ← ok_injective e7,
        ← le32-word elf (ph + 4) a h1,
        ← le32-word elf (ph + 8) b h2,
        ← le32-word elf (ph + 12) c h3,
        ← le32-word elf (ph + 16) d h4,
        ← le32-word elf (ph + 20) m h5,
        ← le32-word elf (ph + 24) f h6,
        ← le32-word elf (ph + 28) g h7,
      )
      refl

push_load-segment :
    (f : ImageFeatures) (elf : List ℕ) (ph : ℕ) (loads loads' : List Rp1ElfLoad)
    → push_load f elf ph loads ≡ ok loads'
    → loads' ≡ loads ++ segment_at elf ph ∷ []
unfolding push_load
push_load-segment f elf ph loads loads' e =
    let (room, e1) = guard-eq-ok (not (leb (max_logged_loads f) (length loads))) _ _ e in
    let (load, h, e2) = bind-eq-ok (read_load elf ph) _ e1 in
    let (_, safe, e3) = bind-eq-ok (check_load f (length elf) load) _ e2 in
    rw (← read_load-segment_at elf ph load h) (sym (ok_injective e3))

load_step-segments :
    (f : ImageFeatures) (elf : List ℕ) (phoff phentsize n index : ℕ)
    (loads loads' : List Rp1ElfLoad)
    → load_step f elf phoff phentsize index loads ≡ ok loads'
    → loads' ++ segments elf phoff phentsize n (index + 1)
      ≡ loads ++ segments elf phoff phentsize (suc n) index
unfolding load_step segments
load_step-segments f elf phoff phentsize n index loads loads' e =
    let (at, h1, e1) = bind-eq-ok (ok_or (checked_mul index phentsize) address_overflow) _ e in
    let (ph, h2, e2) = bind-eq-ok (ok_or (checked_add phoff at) address_overflow) _ e1 in
    let (ph_end, _, e3) =
      bind-eq-ok (ok_or (checked_add ph elf32_phdr_len) address_overflow) _ e2 in
    let (_, e4) = guard-eq-ok (not (ltb (length elf) ph_end)) _ _ e3 in
    let (p_type, h5, e5) = bind-eq-ok (le32 elf ph) _ e4 in
    let is_at : at ≡ index * phentsize = ground arith in
    let is_ph : ph ≡ phoff + index * phentsize = ground (arith, is_at) in
    let is_type = le32-word elf ph p_type h5 in
    elim (Bool-cases (p_type == pt_load)) [
      | inl wanted ↦
          let pushed = push_load-segment f elf ph loads loads' (rw wanted at e5) in
          let typed : (word32 elf (phoff + index * phentsize) == pt_load) ≡ Bool.true =
            rw (← is_ph, ← is_type) wanted in
          rw (typed, pushed, ← is_ph)
            (append_assoc loads (segment_at elf ph ∷ [])
              (segments elf phoff phentsize n (index + 1)))
      | inr other ↦
          let same : loads ≡ loads' = ok_injective (rw other at e5) in
          let typed : (word32 elf (phoff + index * phentsize) == pt_load) ≡ Bool.false =
            rw (← is_ph, ← is_type) other in
          rw (typed, same) refl
    ]

-- The loop puts all segments to be loaded behind those that it starts with.
pub load_loop-segments :
    (f : ImageFeatures) (elf : List ℕ) (phoff phentsize n index : ℕ)
    (loads loads' : List Rp1ElfLoad)
    → load_loop f elf phoff phentsize n index loads ≡ ok loads'
    → loads' ≡ loads ++ segments elf phoff phentsize n index
unfolding load_loop segments
load_loop-segments f elf phoff phentsize zero index loads loads' e =
    sym (ok_injective e) ∙ sym (append-nil loads)
load_loop-segments f elf phoff phentsize (suc n) index loads loads' e =
    let (mid, first, rest) = bind-eq-ok (load_step f elf phoff phentsize index loads) _ e in
    load_loop-segments f elf phoff phentsize n (index + 1) mid loads' rest
    ∙ load_step-segments f elf phoff phentsize n index loads mid first
