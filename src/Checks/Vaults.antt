-- ===== src/Checks/Vaults.antt =====
-- Runs of the properties of the cold copies.
use qnm_node.Base.{◌≡◌, true, false, [], ◌∷◌, list_eq, nat_eq, codes, ok}
use qnm_node.Checks.{toy, digest_a}
use qnm_node.Coldcopy.{Cold, store, verify}
use qnm_node.Coldcopy.Held.{
  IsHeld, nothing-IsHeld, do_store, do_transfer, do_pin, do_pull, run_all, run_all-IsHeld,
}
use qnm_node.Coldcopy.Stored.{nothing-IsVault, verify-store}

abbrev vault : Cold
vault = record {
  objects = [];
  replicas = [];
  pins = [];
  origin_alive = true;
  worker_alive = true;
  dns_alive = true;
}

-- A body in the local vault, then a copy of it on a tunnel, then a pull.
run_all-IsHeld_example :
    IsHeld
      (run_all toy
        (do_store (1 ∷ 2 ∷ []) (codes "local")
          ∷ do_transfer digest_a (codes "cloudflare")
          ∷ do_pin digest_a (codes "tip")
          ∷ do_pull
          ∷ [])
        vault).replicas
run_all-IsHeld_example =
    run_all-IsHeld toy
      (do_store (1 ∷ 2 ∷ []) (codes "local")
        ∷ do_transfer digest_a (codes "cloudflare")
        ∷ do_pin digest_a (codes "tip")
        ∷ do_pull
        ∷ [])
      vault nothing-IsHeld

-- The host is refused and the body is there.
verify-store_example :
    verify toy (toy.sha256_hex (1 ∷ 2 ∷ [])) false (store toy (1 ∷ 2 ∷ []) (codes "vpn") vault).1
    ≡ ok (toy.sha256_hex (1 ∷ 2 ∷ []))
verify-store_example =
    verify-store toy (1 ∷ 2 ∷ []) (codes "vpn") vault (nothing-IsVault toy [] true true true)
