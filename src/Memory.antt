-- ===== src/Memory.antt =====
-- Reading a physical range that the source views as a slice.
use rp1_bootloader_po_c.Base.{ℕ, zero, suc, ◌+◌, List, [], ◌∷◌}
use rp1_bootloader_po_c.Placement.{Memory}

unfoldable pub read_bytes : Memory → ℕ → ℕ → List ℕ
read_bytes m base zero = []
read_bytes m base (suc n) = m base ∷ read_bytes m (base + 1) n
