-- ===== src/Connector/Corefile/Served.antt =====
-- The outcome of `generateCorefileCM` of internal/controller/dnsconnector_construction.go, and its
-- blocks
use coredns_manager_operator.Common.{
  ◌≡◌, refl, ap, subst, sym, ◌∙◌, Bool, false, none, some, ◌||◌, List, [], ◌∷◌, arith, All, exists,
  if◌then◌else◌,
}
use coredns_manager_operator.Common.Text.{Text, eqb}
use coredns_manager_operator.Common.Text.Equality.{eqb_iff}
use coredns_manager_operator.Common.Dict.{Dict, lookup, insert, lookup-insert}
use coredns_manager_operator.Errors.{ok, ◌>>=◌}
use coredns_manager_operator.Api.Meta.{ConfigMap}
use coredns_manager_operator.Api.DnsConnector.{DnsConnectorSpec}
use coredns_manager_operator.Connector.Corefile.{
  domain_annotation, zonefile_name, config_block, corefile_blocks, new_corefile,
}
use coredns_manager_operator.Connector.Corefile.Passes.{
  PassInput, pass, passes, pass-eq, lookup-insert_self,
}

-- A config map of a zone: it names a domain and holds the domain's zone file.
pub record IsZoneMap (cm : ConfigMap) : Type 0 where
  pub domain : Text
  pub zone_file : Text
  pub names : lookup domain_annotation cm.meta.annotations ≡ some domain
  pub holds : lookup (zonefile_name domain) cm.contents ≡ some zone_file

-- Whether a config map names a domain.
unfoldable pub names_domain : Text → ConfigMap → Bool
names_domain d cm = elim (lookup domain_annotation cm.meta.annotations) [
  | some e ↦ eqb e d
  | none ↦ false
]

serve_step :
    (spec : DnsConnectorSpec) (d e : Text) (later : Bool) (old : Dict Text)
    → (if later then some (config_block spec d) else lookup d (insert e (config_block spec e) old))
      ≡ (if eqb e d || later then some (config_block spec d) else lookup d old)
serve_step spec d e later old =
    ground (arith, lookup-insert e d (config_block spec e) old, eqb_iff e d)

-- For config maps that each name a domain and hold its zone file, the blocks can be made. A domain
-- that one of them names then has the block that the connector's spec gives for the domain, and
-- any other has what it had before.
pub corefile_blocks-serves :
    (spec : DnsConnectorSpec) (cms : List ConfigMap) (old : Dict Text)
    → All IsZoneMap cms
    → (blocks : Dict Text) × (corefile_blocks spec cms old ≡ ok blocks)
      × ((d : Text)
          → lookup d blocks
            ≡ (if exists (names_domain d) cms then some (config_block spec d) else lookup d old))
unfolding corefile_blocks names_domain exists
corefile_blocks-serves spec [] old h = (old, refl, λ d. refl)
corefile_blocks-serves spec (cm ∷ cms) old (h, hs) =
    let (blocks, made, found) =
      corefile_blocks-serves spec cms (insert h.domain (config_block spec h.domain) old) hs in
    (
      blocks,
      rw (corefile_blocks, h.names, h.holds, made),
      λ d.
          rw (names_domain, h.names)
            (found d ∙ serve_step spec d h.domain (exists (names_domain d) cms) old),
    )

-- Passes one after another, with config maps that each name a domain and hold its zone file, over a
-- config map that has the key of the Corefile: all of them succeed, and the key is there still.
pub passes-end :
    (key content : Text) (is : List PassInput) (cm : ConfigMap)
    → All (λ i. (i.spec.coredns_cm.corefile_key ≡ key) × All IsZoneMap i.zones) is
    → lookup key cm.contents ≡ some content
    → (cm' : ConfigMap) × (content' : Text) × (passes is cm ≡ ok cm')
      × (lookup key cm'.contents ≡ some content')
passes-end key content [] cm h found = (cm, content, refl, found)
passes-end key content (i ∷ is) cm ((own, zones), h) found =
    let (blocks, made, _) = corefile_blocks-serves i.spec i.zones [] zones in
    let written = new_corefile i.range_order blocks content in
    let cm₁ : ConfigMap = record cm {
      contents = insert i.spec.coredns_cm.corefile_key written cm.contents;
    } in
    let done : pass i cm ≡ ok cm₁ =
      pass-eq i cm content (subst (λ k. lookup k cm.contents ≡ some content) (sym own) found)
      ∙ rw made in
    let found₁ : lookup key cm₁.contents ≡ some written =
      rw (sym own) (lookup-insert_self _ written cm.contents) in
    let (cm', content', ended, there) = passes-end key written is cm₁ h found₁ in
    (cm', content', ap (λ r. r >>= passes is) done ∙ ended, there)
