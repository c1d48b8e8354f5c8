-- ===== src/Auth/Grants/Tests/Rotations.antt =====
-- The rotations of the grant store (src/auth/oauth-grant-store.ts) at concrete inputs.
use slnc_tr_z_mcp.Prelude.{true, false, none, some, ◌≡◌, refl, ok}
use slnc_tr_z_mcp.Auth.ConnectionProfile.{full}
use slnc_tr_z_mcp.Auth.Grants.{has_expired, RefreshRotationReceipt}
use slnc_tr_z_mcp.Auth.Grants.Rotate.{RotationTokenFactory, rotate}
use slnc_tr_z_mcp.Auth.Grants.Retried.{IsRetry, rotate-again}
use slnc_tr_z_mcp.Auth.Grants.Family.{IsRevoked, rotate-rotate}
use slnc_tr_z_mcp.Auth.Grants.Rotated.{has_hash}
use slnc_tr_z_mcp.Prelude.{hex_of_length, any}
use slnc_tr_z_mcp.Auth.Grants.Tests.{
  store_run, anything, hash_of, pair, issued, issued-IsSound, record_for,
}

abbrev rotated_pair : RotationTokenFactory
rotated_pair grant nonce at = pair "e" "f"

abbrev receipt : RefreshRotationReceipt
receipt = record {
  grant = record_for "g1" full 100 900 "Agent 1";
  nonce = hash_of "0";
  issued_at = 110;
  replayed = false;
}

rotated :
    (rotate anything
      (hash_of "b")
      "client"
      "https://host/mcp"
      rotated_pair
      (hash_of "0")
      110
      60
      issued).0
    ≡ ok (some receipt)
unfolding store_run
rotated = refl

-- Within the grace the same tokens are promised again.
rotated_in_grace :
    (rotate anything
      (hash_of "b")
      "client"
      "https://host/mcp"
      rotated_pair
      (hash_of "1")
      150
      60
      (rotate anything
        (hash_of "b")
        "client"
        "https://host/mcp"
        rotated_pair
        (hash_of "0")
        110
        60
        issued).1).0
    ≡ ok (some (record receipt { grant = record_for "g1" full 110 900 "Agent 1"; replayed = true }))
unfolding store_run
rotated_in_grace = refl

no_collision : has_hash (hash_of "b") (rotated_pair receipt.grant receipt.nonce 110) ≡ false
unfolding store_run
no_collision = refl

is_hex_nonce : hex_of_length 64 receipt.nonce ≡ true
unfolding store_run
is_hex_nonce = refl

rotate-rotate_example :
    let after =
      (rotate anything
        (hash_of "b")
        "client"
        "https://host/mcp"
        rotated_pair
        (hash_of "0")
        110
        60
        issued).1 in
    let second =
      rotate anything
        (hash_of "b")
        "client"
        "https://host/mcp"
        rotated_pair
        (hash_of "1")
        170
        60
        after in
    (second.0 ≡ ok none) × IsRevoked "g1" second.1.tables
rotate-rotate_example =
    rotate-rotate anything issued (hash_of "b") "client" "https://host/mcp" rotated_pair
      rotated_pair (hash_of "0") (hash_of "1") 110 170 60 60 receipt issued-IsSound rotated refl
      no_collision is_hex_nonce refl refl refl refl

successors_live : any (λ k. has_expired 150 k.expires_at) (pair "e" "f") ≡ false
unfolding store_run
successors_live = refl

rotate-again_example :
    (again : RefreshRotationReceipt) × ((rotate anything
        (hash_of "b")
        "client"
        "https://host/mcp"
        rotated_pair
        (hash_of "1")
        150
        60
        (rotate anything
          (hash_of "b")
          "client"
          "https://host/mcp"
          rotated_pair
          (hash_of "0")
          110
          60
          issued).1).0
      ≡ ok (some again))
    × IsRetry receipt 110 again
    × (rotated_pair again.grant again.nonce again.issued_at
        ≡ rotated_pair receipt.grant receipt.nonce 110)
rotate-again_example =
    rotate-again anything issued (hash_of "b") "client" "https://host/mcp" rotated_pair
      (hash_of "0") (hash_of "1") 110 150 60 60 receipt issued-IsSound rotated refl
      (λ f n at its. refl) no_collision is_hex_nonce refl successors_live refl refl refl refl
