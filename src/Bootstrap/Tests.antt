-- ===== src/Bootstrap/Tests.antt =====
-- The boot protocol against a boot ROM that stores what it is sent.
use rp1_bootloader_po_c.Base.{arith}
use rp1_bootloader_po_c.Base.{replicate}
use rp1_bootloader_po_c.Base.Words.{from_be_bytes-to_be_bytes}
use rp1_bootloader_po_c.Placement.Copy.{write_bytes-IsWritten}
use rp1_bootloader_po_c.Base.{ℕ, ◌≡◌, refl, ap, List, ok, drop, take}
use rp1_bootloader_po_c.Base.Words.{from_be_bytes}
use rp1_bootloader_po_c.Rp1Image.{Rp1Image, rp1_img}
use rp1_bootloader_po_c.Placement.{Memory, write_bytes}
use rp1_bootloader_po_c.Placement.Copy.{IsWritten}
use rp1_bootloader_po_c.Bootstrap.{Hardware, load_image, load_chunks, load_chunk, write_mem}
use rp1_bootloader_po_c.Bootstrap.Loading.{IsBootRom, load_image-IsWritten}

abbrev store : List ℕ → Memory → Memory
store bytes s = write_bytes s (from_be_bytes (take 4 bytes)) (drop 4 bytes)

abbrev storing : Hardware
storing = record {
  State = Memory;
  write = λ addr bytes s. (ok tt, store bytes s);
  write_read = λ addr bytes len s. (ok (replicate len 0), s);
  set_low = λ s. (ok tt, s);
  set_high = λ s. (ok tt, s);
}

storing-IsBootRom : IsBootRom storing
storing-IsBootRom = record {
  memory = λ s. s;
  stores = λ addr bytes s s' word e.
      let now : write_bytes s addr bytes ≡ s' =
        rw (from_be_bytes-to_be_bytes 4 addr word) at (ap (λ x. x.1) e) in
      rw (← now) (write_bytes-IsWritten s addr bytes);
}

-- Two chunks.
abbrev image : Rp1Image
image = record {
  payload = replicate 70 5;
  load_addr = 0x2000_0000;
  entry = 0x2000_0001;
  stack = 0x2000_1000;
  source = rp1_img;
}

abbrev zero_memory : Memory
zero_memory a = 0

abbrev first_chunk : Memory
first_chunk = write_bytes zero_memory 0x2000_0000 (replicate 64 5)

loaded :
    load_image storing image zero_memory
    ≡ (ok tt, write_bytes first_chunk 0x2000_0040 (replicate 6 5))
unfolding load_image load_chunks load_chunk write_mem
loaded = refl

load_image-IsWritten_example :
    IsWritten zero_memory
      (write_bytes first_chunk 0x2000_0040 (replicate 6 5))
      0x2000_0000
      (replicate 70 5)
unfolding storing-IsBootRom
load_image-IsWritten_example =
    load_image-IsWritten storing storing-IsBootRom image zero_memory
      (write_bytes first_chunk 0x2000_0040 (replicate 6 5)) (omega arith) loaded
