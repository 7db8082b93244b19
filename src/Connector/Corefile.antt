-- ===== src/Connector/Corefile.antt =====
-- `generateCorefileCM` of internal/controller/dnsconnector_construction.go
pub mod Markers
pub mod Blocks
pub mod Rewriting
pub mod Passes
pub mod Served
use coredns_manager_operator.Common.{
  Bool, true, false, not, Option, none, some, List, [], ◌∷◌, ◌++◌, if◌then◌else◌,
}
use coredns_manager_operator.Common.Text.{
  Text, text, newline, tab, split, trim_space, has_prefix, trim_prefix,
}
use coredns_manager_operator.Common.Dict.{Dict, lookup, insert, erase}
use coredns_manager_operator.Errors.{Result, ok, err, new_error, ◌>>=◌}
use coredns_manager_operator.Api.Meta.{ConfigMap}
use coredns_manager_operator.Api.DnsRecord.{ensure_fqdn}
use coredns_manager_operator.Api.DnsConnector.{DnsConnector, DnsConnectorSpec}

-- `corefileConfigBlockStartPrefix` and `corefileConfigBlockEndPrefix`
unfoldable pub block_start_prefix : Text
block_start_prefix = text "# COREDNS CONTROLLER MANAGED BLOCK BEGINNING -- "

unfoldable pub block_end_prefix : Text
block_end_prefix = text "# COREDNS CONTROLLER MANAGED BLOCK END -- "

unfoldable pub space : Text
space = text " "

unfoldable pub domain_annotation : Text
domain_annotation = text "DomainName"

-- The loop over the enabled plugins: a line for each.
unfoldable pub plugin_string : List Text → Text
plugin_string [] = []
plugin_string (p ∷ ps) = (newline ∷ tab ∷ p) ++ plugin_string ps

unfoldable pub zonefile_name : Text → Text
zonefile_name domain = ensure_fqdn domain ++ text "zone"

-- `configBlock`, behind the newline that it begins with
unfoldable pub block_body : DnsConnectorSpec → Text → Text
block_body spec domain =
    (block_start_prefix ++ (space ++ domain))
    ++ newline
      ∷ ((domain ++ text ":53 {")
          ++ newline
            ∷ ((tab
                  ∷ (text "file "
                      ++ (spec.coredns_deployment.zone_file_mount_dir
                          ++ (text "/" ++ zonefile_name domain))))
                ++ (plugin_string spec.coredns_zone_enabled_plugins
                    ++ newline ∷ (text "}" ++ newline ∷ (block_end_prefix ++ (space ++ domain))))))

-- `configBlock`
unfoldable pub config_block : DnsConnectorSpec → Text → Text
config_block spec domain = newline ∷ block_body spec domain

-- The loop over the zone config maps, which fills `corefileBlocks`.
unfoldable pub corefile_blocks : DnsConnectorSpec → List ConfigMap → Dict Text → Result (Dict Text)
corefile_blocks spec [] blocks = ok blocks
corefile_blocks spec (cm ∷ cms) blocks = elim (lookup domain_annotation cm.meta.annotations) [
  | none ↦
      err (
        new_error
          (text "configMap " ++ (cm.meta.name ++ text " does not have a domain annotation")))
  | some domain ↦ elim (lookup (zonefile_name domain) cm.contents) [
    | none ↦
        err (
          new_error (text "configMap " ++ (cm.meta.name ++ text " does not contain zonefile data")))
    | some zonefile ↦ corefile_blocks spec cms (insert domain (config_block spec domain) blocks)
  ]
]

-- The variables of the loop over the lines of the Corefile.
pub record CorefileState : Type 0 where
  pub in_block : Bool
  pub blocks : Dict Text
  pub written : Text

-- A begin marker: if its domain is wanted, the block is written here and not again.
unfoldable pub replace_block : Text → Option Text → CorefileState → CorefileState
replace_block domain none s = record s { in_block = true }
replace_block domain (some block) s = record {
  in_block = true;
  blocks = erase domain s.blocks;
  written = s.written ++ block;
}

-- The body of the loop.
unfoldable pub corefile_step : Text → CorefileState → CorefileState
corefile_step line s =
    let trimmed = trim_space line in
    if has_prefix trimmed block_start_prefix
    then (let domain = trim_prefix trimmed block_start_prefix in
        replace_block domain (lookup domain s.blocks) s)
    else if has_prefix trimmed block_end_prefix
    then record s { in_block = false }
    else if not s.in_block
    then record s { written = s.written ++ (line ++ newline ∷ []) }
    else s

unfoldable pub corefile_loop : List Text → CorefileState → CorefileState
corefile_loop [] s = s
corefile_loop (line ∷ lines) s = corefile_loop lines (corefile_step line s)

-- The loop that writes the blocks that are left.
unfoldable pub write_blocks : Dict Text → Text
write_blocks [] = []
write_blocks ((domain, block) ∷ blocks) = block ++ write_blocks blocks

-- The new Corefile, for the blocks wanted and the old text. `range_order` is the order in which
-- the range over the map visits it.
unfoldable pub new_corefile : (Dict Text → Dict Text) → Dict Text → Text → Text
new_corefile range_order blocks content =
    let s =
      corefile_loop (split content newline)
        (record { in_block = false; blocks = blocks; written = [] }) in
    s.written ++ write_blocks (range_order s.blocks)

-- `generateCorefileCM`
unfoldable pub generate_corefile_cm :
    (Dict Text → Dict Text) → DnsConnectorSpec → ConfigMap → List ConfigMap → Result ConfigMap
generate_corefile_cm range_order spec coredns_conf_cm zone_config_maps =
    let key = spec.coredns_cm.corefile_key in
    elim (lookup key coredns_conf_cm.contents) [
      | none ↦ err (new_error (text "key " ++ (key ++ text " not found in CoreDNS ConfigMap")))
      | some content ↦ do
        blocks ← corefile_blocks spec zone_config_maps []
        ok (record coredns_conf_cm {
          contents = insert key (new_corefile range_order blocks content) coredns_conf_cm.contents;
        })
    ]
