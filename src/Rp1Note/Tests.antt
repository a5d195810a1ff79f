-- ===== src/Rp1Note/Tests.antt =====
-- The note properties at a section with a foreign note before the boot note.
use rp1_bootloader_po_c.Base.{ℕ, ◌≡◌, refl, List, [], ◌∷◌, ◌++◌, replicate, all_bytes-IsBytes}
use rp1_bootloader_po_c.Base.Words.{to_le_bytes}
use rp1_bootloader_po_c.Rp1Note.{
  NoteAbi, Rp1BootInfo, valid, parse_note_section, parse_boot_info, read_boot_info, note_loop,
  note_at, note_bounds, is_boot_note, align4, le_opt,
}
use rp1_bootloader_po_c.Rp1Note.Sound.{IsFoundNote, parse_note_section-IsFoundNote}
use rp1_bootloader_po_c.Rp1Note.Run.{IsRun, parse_note_section-IsRun}

abbrev small_abi : NoteAbi
small_abi = record {
  note_magic = replicate 8 77;
  note_name = 82 ∷ 80 ∷ 49 ∷ 0 ∷ [];
  note_type_boot_v1 = 1;
  note_abi_version = 1;
  boot_info_size = 80;
  version_non_pio = 2;
}

abbrev desc : List ℕ
desc =
    replicate 8 77
    ++ (to_le_bytes 2 1
        ++ (to_le_bytes 2 80
            ++ (replicate 36 0
                ++ (to_le_bytes 8 6
                    ++ (to_le_bytes 8 8
                        ++ (to_le_bytes 8 16 ++ (to_le_bytes 4 3 ++ to_le_bytes 4 2)))))))

abbrev section : List ℕ
section =
    (to_le_bytes 4 4 ++ (to_le_bytes 4 0 ++ (to_le_bytes 4 9 ++ replicate 4 65)))
    ++ (to_le_bytes 4 4
        ++ (to_le_bytes 4 80 ++ (to_le_bytes 4 1 ++ ((82 ∷ 80 ∷ 49 ∷ 0 ∷ []) ++ desc))))

abbrev info : Rp1BootInfo
info = record {
  owner_rp1 = 6;
  owner_linux = 8;
  owner_disabled = 16;
  mailbox_flags = 3;
  firmware_version_kind = 2;
}

parsed : parse_note_section small_abi section ≡ valid info
unfolding parse_note_section parse_boot_info read_boot_info note_loop note_at note_bounds
    is_boot_note align4 le_opt
parsed = refl

parse_note_section-IsFoundNote_example : IsFoundNote small_abi section info
parse_note_section-IsFoundNote_example =
    parse_note_section-IsFoundNote small_abi section info (all_bytes-IsBytes section refl) parsed

parse_note_section-IsRun_example : IsRun small_abi section 0 (parse_note_section small_abi section)
parse_note_section-IsRun_example = parse_note_section-IsRun small_abi section
