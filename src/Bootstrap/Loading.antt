-- ===== src/Bootstrap/Loading.antt =====
-- Loading an image over the boot protocol writes the payload, in chunks, and nothing else.
use rp1_bootloader_po_c.Base.{◌%◌, length-slice}
use rp1_bootloader_po_c.Base.{
  ◌%◌, ℕ, zero, suc, ◌+◌, ◌-◌, ◌≡◌, ◌≤◌, ◌<◌, ◌∙◌, sym, refl, ap, min, List, [], ◌∷◌, ◌++◌, arith,
  Bool-cases, inl, inr, some, ok, err, Result, ltb, length, drop, slice, get_or, length-append,
  take-append-drop, i2c_write,
}
use rp1_bootloader_po_c.Base.Words.{to_be_bytes, checked_add32, u32_mod}
use rp1_bootloader_po_c.Rp1Image.{Rp1Image}
use rp1_bootloader_po_c.Placement.{Memory}
use rp1_bootloader_po_c.Placement.Copy.{IsWritten}
use rp1_bootloader_po_c.Bootstrap.{
  Hardware, Outcome, after, with_error, write_mem, load_chunk, load_chunks, load_image,
  rp1_i2c_addr, rp1_chunk_size,
}

-- What the boot ROM does with a write: four bytes of address, most significant first, and bytes that
-- it stores from there on.
pub record IsBootRom (hw : Hardware) : Type 0 where
  pub memory : Hardware.State hw → Memory
  pub stores :
      (addr : ℕ) (bytes : List ℕ) (s s' : Hardware.State hw)
      → addr < u32_mod
      → hw.write rp1_i2c_addr (to_be_bytes 4 addr ++ bytes) s ≡ (ok tt, s')
      → IsWritten (memory s) (memory s') addr bytes

get_or-append_left :
    (xs ys : List ℕ) (i : ℕ) → i < length xs → get_or (xs ++ ys) i 0 ≡ get_or xs i 0
get_or-append_left [] ys i h = absurd (omega arith)
get_or-append_left (x ∷ xs) ys zero h = refl
get_or-append_left (x ∷ xs) ys (suc i) h = get_or-append_left xs ys i (omega arith)

get_or-append_right : (xs ys : List ℕ) (i : ℕ) → get_or (xs ++ ys) (length xs + i) 0 ≡ get_or ys i 0
get_or-append_right [] ys i = let e : 0 + i ≡ i = omega arith in rw e refl
get_or-append_right (x ∷ xs) ys i =
    let e : suc (length xs) + i ≡ suc (length xs + i) = omega arith in
    rw e (get_or-append_right xs ys i)

-- Two writes, the second right behind the first.
IsWritten-append :
    (m0 m1 m2 : Memory) (dst : ℕ) (xs ys : List ℕ)
    → IsWritten m0 m1 dst xs
    → IsWritten m1 m2 (dst + length xs) ys
    → IsWritten m0 m2 dst (xs ++ ys)
IsWritten-append m0 m1 m2 dst xs ys a b = record {
  inside = λ i h. elim (Bool-cases (ltb i (length xs))) [
    | inl left ↦
        let small : i < length xs = ground arith in
        b.below (dst + i) (omega arith)
        ∙ (a.inside i small ∙ sym (get_or-append_left xs ys i small))
    | inr right ↦
        let k : i ≡ length xs + (i - length xs) = ground arith in
        let at : dst + i ≡ dst + length xs + (i - length xs) = omega arith in
        let value = get_or-append_right xs ys (i - length xs) in
        rw at (b.inside (i - length xs) (omega (arith, length-append xs ys)))
        ∙ sym (rw (← k) at value)
  ];
  below = λ x h. b.below x (omega arith) ∙ a.below x h;
  above = λ x h.
      b.above x (omega (arith, length-append xs ys))
      ∙ a.above x (omega (arith, length-append xs ys));
}

IsWritten-nil : (m : Memory) (dst : ℕ) → IsWritten m m dst []
IsWritten-nil m dst = record {
  inside = λ i h. absurd (omega arith);
  below = λ x h. refl;
  above = λ x h. refl;
}

drop-drop : (a n : ℕ) (xs : List ℕ) → drop (a + n) xs ≡ drop n (drop a xs)
drop-drop zero n xs = let e : 0 + n ≡ n = omega arith in rw e refl
drop-drop (suc a) zero [] = let e : suc a + 0 ≡ suc a = omega arith in rw e refl
drop-drop (suc a) (suc n) [] = let e : suc a + suc n ≡ suc (a + suc n) = omega arith in rw e refl
drop-drop (suc a) n (x ∷ xs) =
    let e : suc a + n ≡ suc (a + n) = omega arith in rw e (drop-drop a n xs)

chunk-append-rest : (xs : List ℕ) (a n : ℕ) → slice xs a (a + n) ++ drop (a + n) xs ≡ drop a xs
chunk-append-rest xs a n =
    let e : a + n - a ≡ n = omega arith in rw (e, drop-drop a n xs) (take-append-drop n (drop a xs))

drop_all : (xs : List ℕ) (a : ℕ) → length xs ≤ a → drop a xs ≡ []
drop_all [] zero h = refl
drop_all [] (suc a) h = refl
drop_all (x ∷ xs) zero h = absurd (omega arith)
drop_all (x ∷ xs) (suc a) h = drop_all xs a (omega arith)

module _ (hw : Hardware) (rom : IsBootRom hw) where
  open rom use {memory, stores}

  with_error-ok :
      (r : Result (Unit {0}) (Unit {0}) × Hardware.State hw) (s' : Hardware.State hw)
      → with_error hw i2c_write r ≡ (ok tt, s')
      → r ≡ (ok tt, s')
  with_error-ok (ok u, s) s' e = ap (λ x. (ok tt, x)) (ap (λ x. x.1) e)
  with_error-ok (err t, s) s' e = let no = ap (λ x. x.0) e in absurd cc

  write_mem-IsWritten :
      (addr : ℕ) (bytes : List ℕ) (s s' : Hardware.State hw)
      → addr < u32_mod
      → write_mem hw addr bytes s ≡ (ok tt, s')
      → (length bytes ≤ rp1_chunk_size) × IsWritten (memory s) (memory s') addr bytes
  unfolding write_mem
  write_mem-IsWritten addr bytes s s' word e =
      elim (Bool-cases (ltb rp1_chunk_size (length bytes))) [
        | inl long ↦ let no = ap (λ x. x.0) (rw long at e) in absurd cc
        | inr short ↦ (
          ground arith,
          stores addr bytes s s' word (
              with_error-ok (hw.write rp1_i2c_addr (to_be_bytes 4 addr ++ bytes) s) s'
                (rw short at e)),
        )
      ]

  after-ok :
      {A B : Type 0} (r : Outcome hw A) (f : A → Hardware.State hw → Outcome hw B) (b : B)
      (s' : Hardware.State hw)
      → after hw r f ≡ (ok b, s')
      → (a : A) × (s : Hardware.State hw) × (r ≡ (ok a, s)) × (f a s ≡ (ok b, s'))
  after-ok (ok a, s) f b s' e = (a, s, refl, e)
  after-ok (err x, s) f b s' e = let no = ap (λ x. x.0) e in absurd cc

  load_chunk-IsWritten :
      (image : Rp1Image) (off : ℕ) (s s' : Hardware.State hw)
      → image.load_addr + length image.payload ≤ u32_mod
      → off < length image.payload
      → load_chunk hw image off s ≡ (ok tt, s')
      → IsWritten
          (memory s)
          (memory s')
          (image.load_addr + off)
          (slice image.payload off (off + min rp1_chunk_size (length image.payload - off)))
  unfolding load_chunk
  load_chunk-IsWritten image off s s' fits inside e =
      let small : off % u32_mod ≡ off = omega arith in
      let at : checked_add32 image.load_addr (off % u32_mod) ≡ some (image.load_addr + off) =
        rw small (ground arith) in
      let n = min rp1_chunk_size (length image.payload - off) in
      (write_mem-IsWritten (image.load_addr + off) (slice image.payload off (off + n)) s s'
        (omega arith) (rw (load_chunk, at) at e)).1

  load_chunks-IsWritten :
      (fuel : ℕ) (image : Rp1Image) (off : ℕ) (s s' : Hardware.State hw)
      → image.load_addr + length image.payload ≤ u32_mod
      → length image.payload ≤ fuel + off
      → load_chunks hw fuel image off s ≡ (ok tt, s')
      → IsWritten (memory s) (memory s') (image.load_addr + off) (drop off image.payload)
  unfolding load_chunks
  load_chunks-IsWritten zero image off s s' fits fuel_is e =
      let same : s ≡ s' = ap (λ x. x.1) e in
      rw (← same, drop_all image.payload off (omega arith))
        (IsWritten-nil (memory s) (image.load_addr + off))
  load_chunks-IsWritten (suc fuel) image off s s' fits fuel_is e =
      elim (Bool-cases (ltb off (length image.payload))) [
        | inr out ↦
            let same : s ≡ s' = ap (λ x. x.1) (rw out at e) in
            rw (← same, drop_all image.payload off (ground arith))
              (IsWritten-nil (memory s) (image.load_addr + off))
        | inl more ↦
            let n = min rp1_chunk_size (length image.payload - off) in
            let inside : off < length image.payload = ground arith in
            let (u, s1, one, rest) =
              after-ok (load_chunk hw image off s) (λ t. load_chunks hw fuel image (off + n)) tt s'
                (rw more at e) in
            let first = load_chunk-IsWritten image off s s1 fits inside one in
            let later = load_chunks-IsWritten fuel image (off + n) s1 s' fits (omega arith) rest in
            let size : length (slice image.payload off (off + n)) ≡ n =
              omega (arith, length-slice image.payload off (off + n) (omega arith) (omega arith)) in
            let here : image.load_addr + (off + n)
                ≡ image.load_addr + off + length (slice image.payload off (off + n)) =
              omega arith in
            rw (← chunk-append-rest image.payload off n) (
              IsWritten-append (memory s) (memory s1) (memory s') (image.load_addr + off)
                (slice image.payload off (off + n)) (drop (off + n) image.payload) first
                (rw here at later))
      ]

  -- On a boot ROM that stores what a write carries, a load that succeeds, of a payload that ends within
  -- the 32-bit addresses, has stored the whole payload at its load address and has changed no other
  -- address.
  pub load_image-IsWritten :
      (image : Rp1Image) (s s' : Hardware.State hw)
      → image.load_addr + length image.payload ≤ u32_mod
      → load_image hw image s ≡ (ok tt, s')
      → IsWritten (memory s) (memory s') image.load_addr image.payload
  unfolding load_image
  load_image-IsWritten image s s' fits e =
      let here : image.load_addr + 0 ≡ image.load_addr = omega arith in
      rw here at (load_chunks-IsWritten (length image.payload) image 0 s s' fits (omega arith) e)
