-- ===== src/Horizon/TrustChain.antt =====
-- internal/issuer/horizon/util.go: buildPemTrustchain.
pub mod Laws
use horizon_issuer.Common.{String, List, [], ◌∷◌, if◌then◌else◌}
use horizon_issuer.Common.Text.{◌<>◌}
use horizon_issuer.Sdk.{CfCertificate}

-- The loop, over the certificates that are left; the last one is at `i == len(certs)-1`. The state
-- is the chain and the CA so far.
build_from : List CfCertificate → String × String → String × String
build_from [] acc = acc
build_from (c ∷ []) (chain, ca) = if c.self_signed then (chain, c.pem) else (chain <> c.pem, ca)
build_from (c ∷ (d ∷ cs)) (chain, ca) = build_from (d ∷ cs) (chain <> (c.pem <> "\n"), ca)

-- The chain and the CA.
unfoldable pub build_pem_trustchain : List CfCertificate → String × String
unfolding build_from
build_pem_trustchain certs = build_from certs ("", "")
