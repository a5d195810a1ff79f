-- ===== src/Rp1Note/Sound.antt =====
-- What a boot note that is accepted says.
use rp1_bootloader_po_c.Rp1Note.{parse_note_section}
use rp1_bootloader_po_c.Rp1Note.{note_bounds}
use rp1_bootloader_po_c.Base.Bits.{bit_and-high_mask}
use rp1_bootloader_po_c.Base.Words.{from_le_bytes-lt}
use rp1_bootloader_po_c.Rp1Note.{from_le_bytes}
use rp1_bootloader_po_c.Base.{get_range, ok_injective, slice-IsBytes}
use rp1_bootloader_po_c.Base.{length-slice, get_range-slice}
use rp1_bootloader_po_c.Base.{leb_sound}
use rp1_bootloader_po_c.Base.{eq_bytes}
use rp1_bootloader_po_c.Rp1Note.{checked_add}
use rp1_bootloader_po_c.Base.{ok_or}
use rp1_bootloader_po_c.Base.{and_true}
use rp1_bootloader_po_c.Rp1Note.{mailbox_flags_supported_mask}
use rp1_bootloader_po_c.Base.{◌==◌, ◌%◌, ◌^◌, ltb, leb, eq_bytes_iff}
use rp1_bootloader_po_c.Base.{==_iff}
use rp1_bootloader_po_c.Rp1Note.{u32_mod}
use rp1_bootloader_po_c.Base.{ap}
use rp1_bootloader_po_c.Base.{bit_and}
use rp1_bootloader_po_c.Base.{leb}
use rp1_bootloader_po_c.Base.{Result-cases}
use rp1_bootloader_po_c.Rp1Note.{is_range}
use rp1_bootloader_po_c.Rp1Note.{is_word}
use rp1_bootloader_po_c.Base.{◌^◌}
use rp1_bootloader_po_c.Base.{IsBytes}
use rp1_bootloader_po_c.Base.{get_range}
use rp1_bootloader_po_c.Base.{
  ℕ, zero, suc, ◌+◌, ◌-◌, ◌≡◌, ◌≤◌, ◌<◌, true, Option, none, some, List, arith, Bool-cases,
  Option-cases, inl, inr, ok, guard-eq-ok, bind-eq-ok, ok_or-eq-ok, length, slice,
}
use rp1_bootloader_po_c.Rp1Note.{
  NoteAbi, Note, Rp1BootInfo, valid, le_opt, note_at, read_boot_info, parse_boot_info, note_loop,
  is_boot_note,
}

is_range_sound : (o : Option (List ℕ)) (v : List ℕ) → is_range o v ≡ true → o ≡ some v
is_range_sound none v h = cc
is_range_sound (some w) v h = ap some ((eq_bytes_iff w v).0 h)

is_word_sound : (o : Option ℕ) (v : ℕ) → is_word o v ≡ true → o ≡ some v
is_word_sound none v h = cc
is_word_sound (some w) v h = ap some ((==_iff w v).0 h)

no_reserved_flags :
    (flags : ℕ)
    → flags < 2 ^ 32
    → (bit_and flags (u32_mod - 1 - mailbox_flags_supported_mask) == 0) ≡ true
    → flags < 4
no_reserved_flags flags small h = omega (
  arith,
  bit_and-high_mask 2 30 flags small,
  (==_iff (bit_and flags (u32_mod - 1 - mailbox_flags_supported_mask)) 0).0 h,
)

le_opt-lt : (bytes : List ℕ) (off w : ℕ) → IsBytes bytes → le_opt 4 bytes off ≡ some w → w < 2 ^ 32
unfolding le_opt
le_opt-lt bytes off w b e = elim (Option-cases (checked_add off 4)) [
  | inl n ↦ let no = rw (le_opt, n) at e in absurd cc
  | inr (end, h) ↦ elim (Option-cases (get_range bytes off end)) [
    | inl n ↦ let no = rw (le_opt, h, n) at e in absurd cc
    | inr (src, k) ↦
        let is_end : end ≡ off + 4 = ground arith in
        let is_src : (src ≡ slice bytes off end) × (end ≤ length bytes) = ground arith in
        let four : length src ≡ 4 =
          omega (arith, ap length is_src.0, length-slice bytes off end (omega arith) is_src.1) in
        let bytes_of : IsBytes src = rw is_src.0 (slice-IsBytes bytes off end b) in
        let value : from_le_bytes src ≡ w = let r = rw (le_opt, h, k) at e in cc in
        omega (arith, rw four at (from_le_bytes-lt src bytes_of))
  ]
]

note_at-IsBytes :
    (section : List ℕ) (off : ℕ) (note : Note)
    → IsBytes section
    → note_at section off ≡ ok note
    → IsBytes note.desc
unfolding note_at
note_at-IsBytes section off note b e =
    let (p, h, e1) = bind-eq-ok (note_bounds section off) _ e in
    let (name, h2, e2) = bind-eq-ok (ok_or (get_range section p.name_start p.name_end) tt) _ e1 in
    let (desc, h3, e3) = bind-eq-ok (ok_or (get_range section p.desc_start p.desc_end) tt) _ e2 in
    let same : desc ≡ note.desc = ap (λ x. x.desc) (ok_injective e3) in
    let k = ok_or-eq-ok (get_range section p.desc_start p.desc_end) _ h3 in
    let is_desc : desc ≡ slice section p.desc_start p.desc_end =
      get_range-slice section p.desc_start p.desc_end desc k in
    rw (← same, is_desc) (slice-IsBytes section p.desc_start p.desc_end b)

module _ (abi : NoteAbi) where
  open abi use {
    note_magic, note_name, note_type_boot_v1, note_abi_version, boot_info_size, version_non_pio,
  }

  -- The descriptor of a boot note that the loader goes by.
  pub record IsBootInfo (desc : List ℕ) (info : Rp1BootInfo) : Type 0 where
    pub whole : boot_info_size ≤ length desc
    pub magic : get_range desc 0 8 ≡ some note_magic
    pub version : le_opt 2 desc 8 ≡ some note_abi_version
    pub size : le_opt 2 desc 10 ≡ some (boot_info_size % 65536)
    pub reserved : le_opt 4 desc 16 ≡ some 0
    pub rp1 : le_opt 8 desc 48 ≡ some info.owner_rp1
    pub linux : le_opt 8 desc 56 ≡ some info.owner_linux
    pub disabled : le_opt 8 desc 64 ≡ some info.owner_disabled
    pub flags : le_opt 4 desc 72 ≡ some info.mailbox_flags
    pub kind : le_opt 4 desc 76 ≡ some info.firmware_version_kind
    pub no_pio : info.firmware_version_kind ≡ version_non_pio
    pub known_flags : info.mailbox_flags < 4

  read_boot_info-IsBootInfo :
      (desc : List ℕ) (info : Rp1BootInfo)
      → IsBytes desc
      → read_boot_info abi desc ≡ ok info
      → IsBootInfo desc info
  unfolding read_boot_info
  read_boot_info-IsBootInfo desc info b e =
      let (t1, e1) = guard-eq-ok (leb boot_info_size (length desc)) _ _ e in
      let (t2, e2) = guard-eq-ok (is_range (get_range desc 0 8) note_magic) _ _ e1 in
      let (t3, e3) = guard-eq-ok (is_word (le_opt 2 desc 8) note_abi_version) _ _ e2 in
      let (t4, e4) = guard-eq-ok (is_word (le_opt 2 desc 10) (boot_info_size % 65536)) _ _ e3 in
      let (t5, e5) = guard-eq-ok (is_word (le_opt 4 desc 16) 0) _ _ e4 in
      let (kind, h6, e6) = bind-eq-ok (ok_or (le_opt 4 desc 76) tt) _ e5 in
      let (t7, e7) = guard-eq-ok (kind == version_non_pio) _ _ e6 in
      let (o1, h8, e8) = bind-eq-ok (ok_or (le_opt 8 desc 48) tt) _ e7 in
      let (o2, h9, e9) = bind-eq-ok (ok_or (le_opt 8 desc 56) tt) _ e8 in
      let (o3, h10, e10) = bind-eq-ok (ok_or (le_opt 8 desc 64) tt) _ e9 in
      let (flags, h11, e11) = bind-eq-ok (ok_or (le_opt 4 desc 72) tt) _ e10 in
      let (t12, e12) =
        guard-eq-ok (bit_and flags (u32_mod - 1 - mailbox_flags_supported_mask) == 0) _ _ e11 in
      let done : (record {
        owner_rp1 = o1;
        owner_linux = o2;
        owner_disabled = o3;
        mailbox_flags = flags;
        firmware_version_kind = kind;
      })
          ≡ info =
        cc in
      let f = ok_or-eq-ok (le_opt 4 desc 72) _ h11 in
      rw (← done) (record {
        whole = leb_sound boot_info_size (length desc) t1;
        magic = is_range_sound (get_range desc 0 8) note_magic t2;
        version = is_word_sound (le_opt 2 desc 8) note_abi_version t3;
        size = is_word_sound (le_opt 2 desc 10) (boot_info_size % 65536) t4;
        reserved = is_word_sound (le_opt 4 desc 16) 0 t5;
        rp1 = ok_or-eq-ok (le_opt 8 desc 48) _ h8;
        linux = ok_or-eq-ok (le_opt 8 desc 56) _ h9;
        disabled = ok_or-eq-ok (le_opt 8 desc 64) _ h10;
        flags = f;
        kind = ok_or-eq-ok (le_opt 4 desc 76) _ h6;
        no_pio = (==_iff kind version_non_pio).0 t7;
        known_flags = no_reserved_flags flags (le_opt-lt desc 72 flags b f) t12;
      })

  parse_boot_info-IsBootInfo :
      (desc : List ℕ) (info : Rp1BootInfo)
      → IsBytes desc
      → parse_boot_info abi desc ≡ valid info
      → IsBootInfo desc info
  unfolding parse_boot_info
  parse_boot_info-IsBootInfo desc info b e = elim (Result-cases (read_boot_info abi desc)) [
    | inl (i, h) ↦
        let same : i ≡ info = let k = rw h at e in cc in
        rw (← same) (read_boot_info-IsBootInfo desc i b h)
    | inr (s, h) ↦ let no = rw h at e in absurd cc
  ]

  -- The accepted note stands in the section, under its name and type.
  pub record IsFoundNote (section : List ℕ) (info : Rp1BootInfo) : Type 0 where
    pub off : ℕ
    pub in_section : off < length section
    pub note : Note
    pub is_at : note_at section off ≡ ok note
    pub named : note.name ≡ note_name
    pub typed : note.note_type ≡ note_type_boot_v1
    pub is_info : IsBootInfo note.desc info

  is_boot_note_lem :
      (note : Note)
      → is_boot_note abi note ≡ true
      → (note.name ≡ note_name) × (note.note_type ≡ note_type_boot_v1)
  unfolding is_boot_note
  is_boot_note_lem note h =
      let (a, b) =
        and_true (eq_bytes note.name note_name) (note.note_type == note_type_boot_v1) h in
      ((eq_bytes_iff note.name note_name).0 a, (==_iff note.note_type note_type_boot_v1).0 b)

  note_loop-IsFoundNote :
      (fuel : ℕ) (section : List ℕ) (off : ℕ) (info : Rp1BootInfo)
      → IsBytes section
      → note_loop abi fuel section off ≡ valid info
      → IsFoundNote section info
  unfolding note_loop
  note_loop-IsFoundNote zero section off info b e = cc
  note_loop-IsFoundNote (suc fuel) section off info b e =
      elim (Bool-cases (ltb off (length section))) [
        | inr f ↦ let no = rw f at e in absurd cc
        | inl inside ↦ elim (Result-cases (note_at section off)) [
          | inr (t, f) ↦ let no = rw (inside, f) at e in absurd cc
          | inl (note, h) ↦ elim (Bool-cases (is_boot_note abi note)) [
            | inl found ↦
                let (named, typed) = is_boot_note_lem note found in
                record {
                  off = off;
                  in_section = ground arith;
                  note = note;
                  is_at = h;
                  named = named;
                  typed = typed;
                  is_info =
                      parse_boot_info-IsBootInfo note.desc info
                        (note_at-IsBytes section off note b h) (rw (inside, h, found) at e);
                }
            | inr other ↦ elim (Bool-cases (leb note.next off)) [
              | inl stuck ↦ let no = rw (inside, h, other, stuck) at e in absurd cc
              | inr on ↦
                  note_loop-IsFoundNote fuel section note.next info b
                    (rw (inside, h, other, on) at e)
            ]
          ]
        ]
      ]

  -- A section's note is accepted only if it stands in the section under the name and the type of the
  -- boot note, with a descriptor that names this version and leaves PIO alone.
  pub parse_note_section-IsFoundNote :
      (section : List ℕ) (info : Rp1BootInfo)
      → IsBytes section
      → parse_note_section abi section ≡ valid info
      → IsFoundNote section info
  unfolding parse_note_section
  parse_note_section-IsFoundNote section info b e =
      note_loop-IsFoundNote (length section) section 0 info b e
