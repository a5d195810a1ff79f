-- ===== src/DtbPatch/Statuses.antt =====
-- What `apply_rp1_policy` of rp1_chainboot_poc/src/dtb_patch.rs leaves in the device tree: every device's
-- node has the status of its owner.
use rp1_bootloader_po_c.Base.{arith}
use rp1_bootloader_po_c.Base.{false}
use rp1_bootloader_po_c.Base.{ok_or}
use Prim.Native.String.{String}
use rp1_bootloader_po_c.Base.{
  ℕ, zero, suc, ◌≡◌, ◌≢◌, refl, sym, ap, ◌∙◌, inl, inr, List, [], ◌∷◌, Option, none, some, ok,
  bind-eq-ok, ok_or-eq-ok, ok_injective, get_elem?, Bool-cases, ==_iff,
}
use rp1_bootloader_po_c.Base.{◌==◌}
use rp1_bootloader_po_c.DeviceTree.{DeviceTreeEditApi}
use rp1_bootloader_po_c.Policy.Abi.{Rp1Abi}
use rp1_bootloader_po_c.Policy.{
  Rp1DtbPolicy, Rp1DeviceDtbNode, validate, owner_of, linux_status, rp1_device_dtb_nodes,
}
use rp1_bootloader_po_c.DtbPatch.{
  first_some, status_prop, find_existing_node, set_status, apply_device, apply_devices,
  apply_rp1_policy,
}

-- How setting a property behaves: `property` reads what was set last, and no other node and no path
-- changes.
pub record IsEditor {Parser : Type 0} (edit : DeviceTreeEditApi Parser)
    (property : DeviceTreeEditApi.Owned edit → ℕ → String → Option (List ℕ)) : Type 0 where
  pub set_same :
      (t u : DeviceTreeEditApi.Owned edit) (id : ℕ) (name : String) (value : List ℕ)
      → DeviceTreeEditApi.set_property edit t id name value ≡ some u
      → property u id name ≡ some value
  pub set_other :
      (t u : DeviceTreeEditApi.Owned edit) (id other : ℕ) (name : String) (value : List ℕ)
      → DeviceTreeEditApi.set_property edit t id name value ≡ some u
      → id ≢ other
      → property u other name ≡ property t other name
  pub find_set :
      (t u : DeviceTreeEditApi.Owned edit) (id : ℕ) (name : String) (value : List ℕ) (path : String)
      → DeviceTreeEditApi.set_property edit t id name value ≡ some u
      → DeviceTreeEditApi.find_owned_by_path edit u path
        ≡ DeviceTreeEditApi.find_owned_by_path edit t path

-- The bytes of the status that a device gets.
pub status_bytes : Option String → Option (List ℕ)
status_bytes none = none
status_bytes (some s) = some (status_prop s)

pub some_injective : {A : Type 0} {a b : A} → ◌≡◌ {A = Option A} (some a) (some b) → a ≡ b
some_injective e = cc

differ_of_test : (x y : ℕ) → (x == y) ≡ false → x ≢ y
differ_of_test x y h = ground arith

module _ {Parser : Type 0} (edit : DeviceTreeEditApi Parser) (abi : Rp1Abi)
    (property : DeviceTreeEditApi.Owned edit → ℕ → String → Option (List ℕ)) (policy : Rp1DtbPolicy)
    (law : IsEditor edit property) where
  open edit use {Owned, find_owned_by_path, set_property}

  find_existing-set :
      (t u : Owned) (id : ℕ) (value : List ℕ) (paths : List String)
      → set_property t id "status" value ≡ some u
      → find_existing_node edit abi u paths ≡ find_existing_node edit abi t paths
  unfolding find_existing_node
  find_existing-set t u id value [] e = refl
  find_existing-set t u id value (p ∷ ps) e =
      ap (λ (f : Option ℕ × Option ℕ). first_some f.0 f.1)
        (λ k. (law.find_set t u id "status" value p e k, find_existing-set t u id value ps e k))

  status : Rp1DeviceDtbNode abi → Option String
  status spec = linux_status (owner_of abi policy spec.bit_of)

  data IsApplied (t u : Owned) (spec : Rp1DeviceDtbNode abi) : Type 0 where
    no_node : spec.fallback_paths ≡ [] → u ≡ t → IsApplied t u spec
    node_set :
        (id : ℕ) (s : String)
        → find_existing_node edit abi t spec.fallback_paths ≡ some id
        → status spec ≡ some s
        → set_property t id "status" (status_prop s) ≡ some u
        → IsApplied t u spec

  set_status-IsApplied :
      (t u : Owned) (spec : Rp1DeviceDtbNode abi) (paths : List String) (s : String)
      → spec.fallback_paths ≡ paths
      → status spec ≡ some s
      → set_status edit abi t paths s ≡ ok u
      → IsApplied t u spec
  unfolding set_status
  set_status-IsApplied t u spec [] s none_given h e = no_node none_given (sym (ok_injective e))
  set_status-IsApplied t u spec (p ∷ ps) s given h e =
      let (id, found, e1) = bind-eq-ok (ok_or (find_existing_node edit abi t (p ∷ ps)) _) _ e in
      node_set id s (rw given (ok_or-eq-ok _ _ found)) h (ok_or-eq-ok _ _ e1)

  apply_device-IsApplied :
      (t u : Owned) (spec : Rp1DeviceDtbNode abi)
      → apply_device edit abi policy t spec ≡ ok u
      → IsApplied t u spec
  unfolding apply_device status
  apply_device-IsApplied t u spec e =
      let (s, h, e1) = bind-eq-ok (ok_or (linux_status (owner_of abi policy spec.bit_of)) _) _ e in
      set_status-IsApplied t u spec spec.fallback_paths s refl (ok_or-eq-ok _ _ h) e1

  -- A device keeps the paths of the others, and the status of every node but its own.
  IsApplied-find :
      (t u : Owned) (spec : Rp1DeviceDtbNode abi) (paths : List String)
      → IsApplied t u spec
      → find_existing_node edit abi u paths ≡ find_existing_node edit abi t paths
  IsApplied-find t u spec paths (no_node empty e) = rw e refl
  IsApplied-find t u spec paths (node_set id s found h e) =
      find_existing-set t u id (status_prop s) paths e

  IsApplied-status :
      (t u : Owned) (spec : Rp1DeviceDtbNode abi) (id : ℕ) (v : Option (List ℕ))
      → IsApplied t u spec
      → property t id "status" ≡ v
      → (find_existing_node edit abi t spec.fallback_paths ≡ some id
          → status_bytes (status spec) ≡ v)
      → property u id "status" ≡ v
  unfolding status_bytes
  IsApplied-status t u spec id v (no_node empty e) h same = rw e h
  IsApplied-status t u spec id v (node_set at s found hs e) h same = elim (Bool-cases (at == id)) [
    | inl own ↦
        let here : at ≡ id = (==_iff _ _).0 own in
        let set = law.set_same t u at "status" (status_prop s) e in
        let value = same (rw here at found) in rw here at set ∙ (rw hs at value)
    | inr other ↦
        law.set_other t u at id "status" (status_prop s) e (differ_of_test at id other) ∙ h
  ]

  -- The devices of the list that stand on the node `id` of the tree have the status `v`.
  AllHave : List (Rp1DeviceDtbNode abi) → Owned → ℕ → Option (List ℕ) → Type 0
  AllHave specs t id v =
      (j : ℕ) (b : Rp1DeviceDtbNode abi)
      → get_elem? specs j ≡ some b
      → find_existing_node edit abi t b.fallback_paths ≡ some id
      → status_bytes (status b) ≡ v

  AllHave-moved :
      (specs : List (Rp1DeviceDtbNode abi)) (t u : Owned) (spec : Rp1DeviceDtbNode abi) (id : ℕ)
      (v : Option (List ℕ))
      → IsApplied t u spec
      → AllHave (spec ∷ specs) t id v
      → AllHave specs u id v
  unfolding AllHave
  AllHave-moved specs t u spec id v step all j b at found =
      all (suc j) b at (sym (IsApplied-find t u spec b.fallback_paths step) ∙ found)

  apply_devices_keep :
      (specs : List (Rp1DeviceDtbNode abi)) (t u : Owned) (id : ℕ) (v : Option (List ℕ))
      → apply_devices edit abi policy t specs ≡ ok u
      → property t id "status" ≡ v
      → AllHave specs t id v
      → property u id "status" ≡ v
  unfolding apply_devices AllHave
  apply_devices_keep [] t u id v e h all = rw (sym (ok_injective e)) h
  apply_devices_keep (spec ∷ specs) t u id v e h all =
      let (now, e1, e2) = bind-eq-ok (apply_device edit abi policy t spec) _ e in
      let step = apply_device-IsApplied t now spec e1 in
      let here = IsApplied-status t now spec id v step h (all 0 spec refl) in
      apply_devices_keep specs now u id v e2 here (AllHave-moved specs t now spec id v step all)

  IsApplied-set :
      (t u : Owned) (spec : Rp1DeviceDtbNode abi) (id : ℕ)
      → IsApplied t u spec
      → find_existing_node edit abi t spec.fallback_paths ≡ some id
      → property u id "status" ≡ status_bytes (status spec)
  unfolding status_bytes find_existing_node
  IsApplied-set t u spec id (no_node empty e) found =
      let none_found = rw empty at found in absurd cc
  IsApplied-set t u spec id (node_set at s there hs e) found =
      let same : at ≡ id = some_injective (sym there ∙ found) in
      rw (hs, ← same) (law.set_same t u at "status" (status_prop s) e)

  apply_devices_status :
      (specs : List (Rp1DeviceDtbNode abi)) (i : ℕ) (spec : Rp1DeviceDtbNode abi) (t u : Owned)
      (id : ℕ)
      → apply_devices edit abi policy t specs ≡ ok u
      → get_elem? specs i ≡ some spec
      → find_existing_node edit abi t spec.fallback_paths ≡ some id
      → AllHave specs t id (status_bytes (status spec))
      → property u id "status" ≡ status_bytes (status spec)
  unfolding apply_devices
  apply_devices_status [] i spec t u id e at found all = absurd cc
  apply_devices_status (a ∷ specs) zero spec t u id e at found all =
      let (now, e1, e2) = bind-eq-ok (apply_device edit abi policy t a) _ e in
      let same : a ≡ spec = some_injective at in
      let step = apply_device-IsApplied t now a e1 in
      let own = IsApplied-set t now spec id (rw same at step) found in
      apply_devices_keep specs now u id _ e2 own (AllHave-moved specs t now a id _ step all)
  apply_devices_status (a ∷ specs) (suc i) spec t u id e at found all =
      let (now, e1, e2) = bind-eq-ok (apply_device edit abi policy t a) _ e in
      let step = apply_device-IsApplied t now a e1 in
      apply_devices_status specs i spec now u id e2 at
        (IsApplied-find t now a spec.fallback_paths step ∙ found)
        (AllHave-moved specs t now a id _ step all)

  -- After the policy has been applied, the node that the tree has for a device carries the status of
  -- the device's owner, `okay` for Linux and `disabled` for RP1 or nobody, provided that devices that
  -- share this node have owners of the same status.
  pub apply_rp1_policy-statuses :
      (t u : Owned) (i id : ℕ) (spec : Rp1DeviceDtbNode abi)
      → apply_rp1_policy edit abi t policy ≡ ok u
      → get_elem? (rp1_device_dtb_nodes abi) i ≡ some spec
      → find_existing_node edit abi t spec.fallback_paths ≡ some id
      → ((j : ℕ) (b : Rp1DeviceDtbNode abi)
          → get_elem? (rp1_device_dtb_nodes abi) j ≡ some b
          → find_existing_node edit abi t b.fallback_paths ≡ some id
          → linux_status (owner_of abi policy b.bit_of)
            ≡ linux_status (owner_of abi policy spec.bit_of))
      → property u id "status" ≡ status_bytes (linux_status (owner_of abi policy spec.bit_of))
  unfolding apply_rp1_policy AllHave status
  apply_rp1_policy-statuses t u i id spec e at found shared =
      let (t0, h, e1) = bind-eq-ok (validate abi policy) _ e in
      apply_devices_status (rp1_device_dtb_nodes abi) i spec t u id e1 at found
        (λ j b there f. ap status_bytes (shared j b there f))
