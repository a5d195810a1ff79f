-- ===== src/NetBoot/Keeps.antt =====
-- What the steps of the network boot leave in the reserved memory: the transfers and the upkeep of the
-- caches and of the network device leave it alone.
use Prim.Native.String.{String}
use rp1_bootloader_po_c.Base.{
  ℕ, zero, suc, ◌+◌, ◌-◌, ◌%◌, ◌^◌, ◌≡◌, ◌∙◌, ltb, ◌==◌, List, Result, BootError, ok, err,
  Bool-cases, inl, inr,
}
use rp1_bootloader_po_c.Placement.{Memory}
use rp1_bootloader_po_c.Dhcp.{NetworkBootLease}
use rp1_bootloader_po_c.NetBoot.{
  TftpApi, TftpConfig, TftpError, server_error, other_error, World, Step, after, transfer, required,
  optional, download_tftp_required, download_tftp_optional, flush_tftp_transfer, drain_loop,
  drain_rx,
}
use rp1_bootloader_po_c.NetBoot.Load.{
  Build, Loaded, flush_and_drain, load_rp1_elf_and_policy_from_tftp, load_rp1_policy_from_tftp,
}
use rp1_bootloader_po_c.NetBoot.Flow.{BoardApi}

-- What is relied on of the board and of the crate net: what is stored is in memory, and the calls after
-- the kernel is in place do not write to the reserved ranges of memory.
pub record IsQuiet {S : Type 0} (api : TftpApi S) (board : BoardApi S) : Type 0 where
  pub set_then : (m : Memory) (s : S) → board.memory (board.set_memory m s) ≡ m
  pub download :
      (config : TftpConfig) (max : ℕ) (s : S)
      → board.memory (api.download_into config max s).1 ≡ board.memory s
  pub clock : (s : S) → board.memory (api.now_us s).1 ≡ board.memory s
  pub frames : (s : S) → board.memory (api.try_recv_frame s).1 ≡ board.memory s
  pub diagnosis : (s : S) → board.memory (api.diagnose s) ≡ board.memory s
  pub release : (s : S) → board.memory (board.release_after_linux_handoff s).1 ≡ board.memory s
  pub clean : (lines : List ℕ) (s : S) → board.memory (board.clean_lines lines s) ≡ board.memory s
  pub invalidate : (s : S) → board.memory (board.invalidate_icache_all s) ≡ board.memory s

pub after-keeps :
    {S A B : Type 0} (memory : S → Memory) (x : Memory) (m : Result BootError A × World S)
    (f : A → Step S B)
    → memory m.1.0 ≡ x
    → ((a : A) (w : World S) → memory w.0 ≡ x → memory (f a w).1.0 ≡ x)
    → memory (after m f).1.0 ≡ x
unfolding after
after-keeps memory x (ok a, w) f h k = k a w h
after-keeps memory x (err e, w) f h k = h

module _ {S : Type 0} (api : TftpApi S) (board : BoardApi S) (quiet : IsQuiet api board)
    (lease : NetworkBootLease) (x : Memory) where
  transfer-keeps :
      (filename : String) (max : ℕ) (w : World S)
      → board.memory w.0 ≡ x
      → board.memory (transfer api lease filename max w).1.0 ≡ x
  unfolding transfer
  transfer-keeps filename max (s, ports) h = quiet.download _ max s ∙ h

  required-keeps :
      (r : Result TftpError (List ℕ) × World S)
      → board.memory r.1.0 ≡ x
      → board.memory (required api lease r).1.0 ≡ x
  unfolding required
  required-keeps (ok bytes, w) h = h
  required-keeps (err e, (s, ports)) h = quiet.diagnosis s ∙ h

  optional-keeps :
      (r : Result TftpError (List ℕ) × World S)
      → board.memory r.1.0 ≡ x
      → board.memory (optional api lease r).1.0 ≡ x
  unfolding optional
  optional-keeps (ok bytes, w) h = h
  optional-keeps (err (server_error code), (s, ports)) h = elim (Bool-cases (code == 1)) [
    | inl absent ↦ rw absent h
    | inr other ↦ rw other (quiet.diagnosis s ∙ h)
  ]
  optional-keeps (err other_error, (s, ports)) h = quiet.diagnosis s ∙ h

  drain_loop-keeps :
      (fuel start duration : ℕ) (s : S)
      → board.memory s ≡ x
      → board.memory (drain_loop api lease fuel start duration s) ≡ x
  unfolding drain_loop
  drain_loop-keeps zero start duration s h = h
  drain_loop-keeps (suc fuel) start duration s h =
      let s1 = (api.now_us s).1 in
      elim (Bool-cases (ltb (((api.now_us s).0 + 2 ^ 64 - start) % 2 ^ 64) duration)) [
        | inl early ↦ rw early (
            drain_loop-keeps fuel start duration (api.try_recv_frame s1).1
              (quiet.frames s1 ∙ (quiet.clock s ∙ h)))
        | inr late ↦ rw late (quiet.clock s ∙ h)
      ]

  flush_and_drain-keeps :
      (b : Build) (loaded : Loaded) (w : World S)
      → board.memory w.0 ≡ x
      → board.memory (flush_and_drain api b lease loaded w).1.0 ≡ x
  unfolding flush_and_drain flush_tftp_transfer download_tftp_optional drain_rx
  flush_and_drain-keeps b loaded w h =
      after-keeps board.memory x _ _
        (after-keeps board.memory x _ _ (optional-keeps _ (transfer-keeps _ _ w h))
          (λ bytes u k. k))
        (λ t u k. drain_loop-keeps b.drain_looks _ 200000 _ (quiet.clock u.0 ∙ k))

  load-keeps :
      (b : Build) (w : World S)
      → board.memory w.0 ≡ x
      → board.memory (load_rp1_elf_and_policy_from_tftp api b lease w).1.0 ≡ x
  unfolding load_rp1_elf_and_policy_from_tftp download_tftp_required download_tftp_optional
  load-keeps b w h =
      after-keeps board.memory x _ _ (required-keeps _ (transfer-keeps _ _ w h)) (λ elf w1 h1.
        after-keeps board.memory x _ _ h1 (λ info w2 h2.
          after-keeps board.memory x _ _ (optional-keeps _ (transfer-keeps _ _ w2 h2))
            (λ cfg_file w3 h3.
              after-keeps board.memory x _ _ h3
                (λ loaded w4 h4. flush_and_drain-keeps b loaded w4 h4))))

  pub load_rp1_policy-keeps :
      (b : Build) (w : World S)
      → board.memory w.0 ≡ x
      → board.memory (load_rp1_policy_from_tftp api b lease w).1.0 ≡ x
  unfolding load_rp1_policy_from_tftp
  load_rp1_policy-keeps b w h = after-keeps board.memory x _ _ (load-keeps b w h) (λ loaded u k. k)
