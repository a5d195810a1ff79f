-- ===== src/NetBoot/Served.antt =====
-- What the transfers of the network boot bring: the files of the server, and the owner policy that the
-- firmware file and the configuration ask for.
use Prim.Native.String.{String}
use rp1_bootloader_po_c.NetBoot.{
  TftpConfig, TftpError, server_error, other_error, transfer, required, optional, tftp_config,
  port_alloc, download_tftp_required, download_tftp_optional,
}
use rp1_bootloader_po_c.Base.{ap}
use rp1_bootloader_po_c.Base.{
  ℕ, ◌≡◌, refl, List, Option, none, some, Result, ok, err, bind-eq-ok, ok_injective, Bool-cases,
  inl, inr,
}
use rp1_bootloader_po_c.Base.{◌==◌}
use rp1_bootloader_po_c.Dhcp.{NetworkBootLease}
use rp1_bootloader_po_c.Policy.{Rp1DtbPolicy, validate}
use rp1_bootloader_po_c.Start.Validated.{enforce_rp1_elf_note_policy_with_config-validate}
use rp1_bootloader_po_c.Start.{config_or_invalid, enforce_rp1_elf_note_policy_with_config}
use rp1_bootloader_po_c.Config.{parse_optional_config}
use rp1_bootloader_po_c.NetBoot.{TftpApi, World, after-ok}
use rp1_bootloader_po_c.NetBoot.Load.{
  Build, Loaded, judge_files, flush_and_drain, load_rp1_elf_and_policy_from_tftp,
}

module _ {S : Type 0} (api : TftpApi S) (b : Build) (lease : NetworkBootLease) where
  -- A file that a transfer from the server of the lease has brought.
  pub record IsServed (name : String) (file : List ℕ) : Type 0 where
    pub config : TftpConfig
    pub max_len : ℕ
    pub before : S
    pub named : config.filename ≡ name
    pub from_server : config.server_ip ≡ lease.tftp_server_ip
    pub received : (api.download_into config max_len before).0 ≡ ok file

  abbrev pub IsServedIfAny : String → Option (List ℕ) → Type 0
  IsServedIfAny name none = Unit {0}
  IsServedIfAny name (some file) = IsServed name file

  -- A validated policy that the served firmware, with the served configuration, asks for.
  pub record IsChosen (policy : Rp1DtbPolicy) : Type 0 where
    pub elf : List ℕ
    pub cfg_file : Option (List ℕ)
    pub elf_served : IsServed "RP1.elf" elf
    pub cfg_served : IsServedIfAny "config_rp1.txt" cfg_file
    pub chosen :
        enforce_rp1_elf_note_policy_with_config b.abi b.note_abi b.from_utf8 elf cfg_file
        ≡ ok policy
    pub validated : validate b.abi policy ≡ ok tt

  pub transfer-IsServed :
      (name : String) (max : ℕ) (w : World S) (file : List ℕ)
      → (transfer api lease name max w).0 ≡ ok file
      → IsServed name file
  unfolding transfer tftp_config
  transfer-IsServed name max (s, ports) file e = record {
    config = tftp_config api lease name (port_alloc ports).0;
    max_len = max;
    before = s;
    named = refl;
    from_server = refl;
    received = e;
  }

  pub required-ok :
      (r : Result TftpError (List ℕ) × World S) (file : List ℕ)
      → (required api lease r).0 ≡ ok file
      → r.0 ≡ ok file
  unfolding required
  required-ok (ok bytes, w) file e = ap ok (ok_injective e)
  required-ok (err x, w) file e = absurd cc

  optional-ok :
      (name : String) (r : Result TftpError (List ℕ) × World S) (file : Option (List ℕ))
      → ((bytes : List ℕ) → r.0 ≡ ok bytes → IsServed name bytes)
      → (optional api lease r).0 ≡ ok file
      → IsServedIfAny name file
  unfolding optional
  optional-ok name r none k e = tt
  optional-ok name (ok bytes, w) (some file) k e =
      let same : bytes ≡ file = cc in rw (← same) (k bytes refl)
  optional-ok name (err (server_error code), w) (some file) k e = elim (Bool-cases (code == 1)) [
    | inl absent ↦ let no = rw absent at e in absurd cc
    | inr other ↦ let no = rw other at e in absurd cc
  ]
  optional-ok name (err other_error, w) (some file) k e = absurd cc

  judged-IsChosen :
      (elf : List ℕ) (cfg_file : Option (List ℕ)) (loaded : Loaded)
      → IsServed "RP1.elf" elf
      → IsServedIfAny "config_rp1.txt" cfg_file
      → judge_files b elf cfg_file ≡ ok loaded
      → IsChosen loaded.policy
  unfolding judge_files
  judged-IsChosen elf cfg_file loaded elf_served cfg_served e =
      let (parsed, h, e1) =
        bind-eq-ok (config_or_invalid (parse_optional_config b.abi b.from_utf8 cfg_file)) _ e in
      let (policy, h2, e2) =
        bind-eq-ok
          (enforce_rp1_elf_note_policy_with_config b.abi b.note_abi b.from_utf8 elf cfg_file) _
          e1 in
      rw (← ok_injective e2) (record {
        elf = elf;
        cfg_file = cfg_file;
        elf_served = elf_served;
        cfg_served = cfg_served;
        chosen = h2;
        validated =
            enforce_rp1_elf_note_policy_with_config-validate b.abi b.note_abi b.from_utf8 elf
              cfg_file policy h2;
      })

  pub loaded-IsChosen :
      (w : World S) (loaded : Loaded)
      → (load_rp1_elf_and_policy_from_tftp api b lease w).0 ≡ ok loaded
      → IsChosen loaded.policy
  unfolding load_rp1_elf_and_policy_from_tftp flush_and_drain download_tftp_required
      download_tftp_optional
  loaded-IsChosen w loaded e =
      let (elf, h1, e1) = after-ok _ _ e in
      let (info, h2, e2) = after-ok _ _ e1 in
      let (cfg_file, h3, e3) = after-ok _ _ e2 in
      let (judged, h4, e4) = after-ok _ _ e3 in
      let (flushed, h5, e5) = after-ok _ _ e4 in
      let same : judged ≡ loaded = ok_injective e5 in
      rw (← same) (
        judged-IsChosen elf cfg_file judged (transfer-IsServed _ _ _ elf (required-ok _ elf h1))
          (optional-ok "config_rp1.txt" _ cfg_file (λ bytes k. transfer-IsServed _ _ _ bytes k) h3)
          h4)
