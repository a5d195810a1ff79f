-- ===== src/PcieSnapshot/Tests.antt =====
-- An observation of a ready RP1.
use rp1_bootloader_po_c.PcieSnapshot.{snapshot-ok}
use rp1_bootloader_po_c.PcieSnapshot.{all_reads}
use rp1_bootloader_po_c.PcieSnapshot.{header_answers}
use rp1_bootloader_po_c.PcieSnapshot.{logged}
use rp1_bootloader_po_c.PcieSnapshot.{check_after}
use rp1_bootloader_po_c.PcieSnapshot.{read_header}
use rp1_bootloader_po_c.PcieSnapshot.{snapshot_header}
use rp1_bootloader_po_c.PcieSnapshot.{snapshot}
use rp1_bootloader_po_c.Base.{ℕ, ◌≡◌, refl, if◌then◌else◌, [], bit_and}
use rp1_bootloader_po_c.Base.{◌==◌}

abbrev rp1_answers : ℕ → ℕ → ℕ
rp1_answers n offset =
    if offset == 0x001081a4
    then 0x00030000
    else if offset == 0x00108000
    then 0
    else if offset == 0x00109000
    then 0x00011de4
    else n

snapshot-ok_example :
    ((snapshot (logged rp1_answers) []).1 ≡ all_reads)
    × (header_answers rp1_answers ≡ header_answers rp1_answers)
    × (bit_and 0x00030000 0x00030000 ≡ 0x00030000)
    × (rp1_answers 1 0x00108000 ≡ 0)
    × (rp1_answers 2 0x00109000 ≡ 0x00011de4)
    × (rp1_answers 9 0x00108000 ≡ 0)
    × (bit_and 0x00030000 0x00030000 ≡ 0x00030000)
    × (bit_and 0x00030000 0x001f0000 ≡ bit_and 0x00030000 0x001f0000)
unfolding snapshot snapshot_header read_header check_after logged header_answers
snapshot-ok_example = snapshot-ok rp1_answers (header_answers rp1_answers) refl
