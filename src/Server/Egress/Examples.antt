-- ===== src/Server/Egress/Examples.antt =====
-- Addresses of the tests of src/server/hub.rs.
use newppp.Prelude.{◌≡◌, refl, false, not, arith}
use newppp.Server.Egress.{Ipv4Addr, v4, v6, is_public_v4, is_public_target}
use newppp.Server.Egress.Blocks.{number, refused_blocks, any_within, is_public_v4-blocks}
use newppp.Server.Egress.Embedded.{nat64, written, is_public_target-written}

-- The cloud metadata address.
abbrev metadata : Ipv4Addr
metadata = record { a = 169; b = 254; c = 169; d = 254 }

metadata_is_refused : is_public_v4 metadata ≡ false
unfolding is_public_v4
metadata_is_refused = refl

is_public_v4-blocks_example :
    is_public_v4 metadata ≡ not (any_within (number metadata) refused_blocks)
is_public_v4-blocks_example =
    is_public_v4-blocks metadata (omega arith, omega arith, omega arith, omega arith)

is_public_target-written_example :
    is_public_target (record { ip = v6 (written nat64 metadata); port = 80 })
    ≡ is_public_target (record { ip = v4 metadata; port = 80 })
is_public_target-written_example =
    is_public_target-written nat64 metadata 80 (omega arith, omega arith, omega arith, omega arith)
