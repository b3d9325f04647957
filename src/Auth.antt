-- ===== src/Auth.antt =====
-- internal/auth/auth.go. SHA-256 and the random source are the environment's.
use wireguard_natter_helper.Prelude.{String, Bool, ◌==◌, ◌<>◌, Result, ok, err, none, some}
use wireguard_natter_helper.Store.State.{Env}

-- `GenerateToken`: the prefix and the encoding of the bytes drawn
unfoldable pub generate_token : Env → Result String
generate_token env = elim env.random_fault [ some e ↦ err e | none ↦ ok ("wgnh_" <> env.random 0) ]

-- `HashToken`
unfoldable pub hash_token : Env → String → String
hash_token env token = env.sha256_hex token

-- `VerifyToken`; a comparison in constant time gives the same answer.
unfoldable pub verify_token : Env → String → String → Bool
unfolding hash_token
verify_token env token expected_hash = hash_token env token == expected_hash
