-- ===== src/Zone/Compare.antt =====
-- `compareZonefileConfigMaps` and `removeSerialNumber` of internal/controller/dnszone_controller.go
pub mod Masks
pub mod Laws
use coredns_manager_operator.Common.{Bool, List, [], ◌∷◌, ◌++◌, map, if◌then◌else◌}
use coredns_manager_operator.Common.Text.{Text, text, newline, tab, split, join, contains}
use coredns_manager_operator.Common.Dict.{Dict}
use coredns_manager_operator.Api.Meta.{ConfigMap}

-- `pieces[0]`; `strings.Split` returns a piece at least
unfoldable pub first_piece : List Text → Text
first_piece [] = []
first_piece (p ∷ ps) = p

unfoldable pub serial_word : Text
serial_word = text "Serial"

unfoldable pub has_serial : Text → Bool
unfolding contains serial_word
has_serial line = contains line serial_word

unfoldable pub masked_end : Text
masked_end = text " ; "

-- The body of the loop over the lines.
unfoldable pub mask_line : Text → Text
unfolding has_serial first_piece split masked_end
mask_line line =
    if has_serial line then first_piece (split line tab) ++ (masked_end ++ serial_word) else line

-- `removeSerialNumber`
unfoldable pub remove_serial_number : Text → Text
unfolding mask_line split join
remove_serial_number zonefile = join (map mask_line (split zonefile newline)) newline

-- A loop that replaces every value of a map.
unfoldable pub map_values : (Text → Text) → Dict Text → Dict Text
map_values f [] = []
map_values f ((k, v) ∷ m) = (k, f v) ∷ map_values f m

-- `compareZonefileConfigMaps`, over `equality.Semantic.DeepEqual` at maps of texts
unfoldable pub compare_zonefile_config_maps :
    (Dict Text → Dict Text → Bool) → ConfigMap → ConfigMap → Bool
unfolding remove_serial_number map_values
compare_zonefile_config_maps deep_equal previous upcoming =
    deep_equal (map_values remove_serial_number previous.contents)
      (map_values remove_serial_number upcoming.contents)
