-- ===== src/Rp1Note/Run.antt =====
-- What the loop over the notes of a section comes to, as a relation without fuel.
use rp1_bootloader_po_c.Base.{
  ℕ, zero, suc, ◌+◌, ◌≤◌, ◌<◌, ◌≡◌, List, true, false, length, ltb, leb, arith, ok, err, Bool-cases,
  Result-cases, inl, inr,
}
use rp1_bootloader_po_c.Rp1Note.{
  NoteAbi, Note, Rp1NoteState, invalid, note_at, is_boot_note, parse_boot_info, note_loop,
  parse_note_section,
}

module _ (abi : NoteAbi) (section : List ℕ) where
  -- The loop from an offset on: it ends behind the section, at a note that does not lie in it, at a
  -- boot note, or at a note that does not lead on; past any other note it goes on where that note ends.
  pub data IsRun : ℕ → Rp1NoteState → Type 0 where
    at_end : (off : ℕ) → length section ≤ off → IsRun off invalid
    no_note : (off : ℕ) → off < length section → note_at section off ≡ err tt → IsRun off invalid
    boot_note :
        (off : ℕ) (note : Note)
        → off < length section
        → note_at section off ≡ ok note
        → is_boot_note abi note ≡ true
        → IsRun off (parse_boot_info abi note.desc)
    no_progress :
        (off : ℕ) (note : Note)
        → off < length section
        → note_at section off ≡ ok note
        → is_boot_note abi note ≡ false
        → note.next ≤ off
        → IsRun off invalid
    other_note :
        (off : ℕ) (note : Note) (state : Rp1NoteState)
        → off < length section
        → note_at section off ≡ ok note
        → is_boot_note abi note ≡ false
        → off < note.next
        → IsRun note.next state
        → IsRun off state

  note_loop-IsRun :
      (fuel off : ℕ) → length section ≤ fuel + off → IsRun off (note_loop abi fuel section off)
  unfolding note_loop
  note_loop-IsRun zero off h = at_end off (omega arith)
  note_loop-IsRun (suc fuel) off h = elim (Bool-cases (ltb off (length section))) [
    | inr past ↦ rw past (at_end off (ground arith))
    | inl inside ↦
        let within : off < length section = ground arith in
        elim (Result-cases (note_at section off)) [
          | inr (t, f) ↦ rw (inside, f) (no_note off within f)
          | inl (note, e) ↦ elim (Bool-cases (is_boot_note abi note)) [
            | inl boot ↦ rw (inside, e, boot) (boot_note off note within e boot)
            | inr other ↦ elim (Bool-cases (leb note.next off)) [
              | inl stuck ↦
                  rw (inside, e, other, stuck) (no_progress off note within e other (ground arith))
              | inr on ↦
                  let later : off < note.next = ground arith in
                  rw (inside, e, other, on)
                    (other_note off note (note_loop abi fuel section note.next) within e other later
                      (note_loop-IsRun fuel note.next (omega arith)))
            ]
          ]
        ]
  ]

  -- The scan of a section always comes to one of the ends of its loop, each note before it leading on:
  -- it never stops because of the bound on its rounds.
  pub parse_note_section-IsRun : IsRun 0 (parse_note_section abi section)
  unfolding parse_note_section
  parse_note_section-IsRun = note_loop-IsRun (length section) 0 (omega arith)
