-- ===== src/Horizon/TrustChain/Laws.antt =====
-- internal/issuer/horizon/util.go: what the loop of buildPemTrustchain builds.
use horizon_issuer.Common.{String, List, [], ◌∷◌, ◌++◌, ◌≡◌, if◌then◌else◌}
use horizon_issuer.Common.Text.{◌<>◌, text_assoc, text_nil, nil_text}
use horizon_issuer.Sdk.{CfCertificate}
use horizon_issuer.Horizon.TrustChain.{build_from, build_pem_trustchain}

-- Each certificate of a list, with a line feed behind it.
unfoldable pub lines_of : List CfCertificate → String
lines_of [] = ""
lines_of (c ∷ cs) = c.pem <> ("\n" <> lines_of cs)

build_from-concat :
    (certs : List CfCertificate) (last : CfCertificate) (chain ca : String)
    → build_from (certs ++ last ∷ []) (chain, ca) ≡ (
        if last.self_signed
        then (chain <> lines_of certs, last.pem)
        else (chain <> (lines_of certs <> last.pem), ca))
unfolding build_from lines_of
build_from-concat [] last chain ca = simp (text_nil, nil_text)
build_from-concat (c ∷ []) last chain ca = simp (text_nil, text_assoc)
build_from-concat (c ∷ (d ∷ cs)) last chain ca =
    rw (build_from-concat (d ∷ cs) last (chain <> (c.pem <> "\n")) ca) (simp text_assoc)

-- For a non-empty list the chain is every certificate but the last with a line feed behind it, then
-- the last one if it is not self-signed; the CA is the last one if it is self-signed, else empty.
pub build_pem_trustchain-concat :
    (certs : List CfCertificate) (last : CfCertificate)
    → build_pem_trustchain (certs ++ last ∷ [])
      ≡ (if last.self_signed then (lines_of certs, last.pem) else (lines_of certs <> last.pem, ""))
unfolding build_pem_trustchain
build_pem_trustchain-concat certs last = rw (build_from-concat certs last "" "") (simp nil_text)
