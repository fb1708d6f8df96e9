-- ===== src/Rtc/Examples.antt =====
-- A configuration whose second file takes back the relay of the first.
use matrixctrl.Common.{
  String, ◌≡◌, refl, Bool, Option, none, some, List, [], ◌∷◌, str_eq, if◌then◌else◌,
}
use matrixctrl.Common.Bytes.{Bytes, ascii}
use matrixctrl.Common.Sort.{stable_sort, IsOrdered, place}
use matrixctrl.Rtc.CallPath.{
  turn_absent, turn_unknown, Value, scalar, sequence, by_file_name, read_files, turn_from_config,
}
use matrixctrl.Rtc.Override.{last_set, any_parses, status_or, uris_or, turn_from_config_lem}

abbrev decode : String → Option (Option Value)
decode content =
    if str_eq content "turn_uris: []"
    then some (some (sequence []))
    else some (some (scalar "turn:relay.example.org"))

abbrev files : List (Bytes × String)
files =
    (ascii "20-off.yaml", "turn_uris: []")
    ∷ (ascii "10-on.yaml", "turn_uris: turn:relay.example.org")
    ∷ []

taken_back : turn_from_config decode files ≡ (turn_absent, [])
unfolding turn_from_config read_files stable_sort place matrixctrl.Common.Bytes.less
    matrixctrl.Rtc.CallPath.texts
taken_back = refl

turn_from_config_lem_example :
    let sorted = stable_sort by_file_name files in
    IsOrdered by_file_name sorted
    × (turn_from_config decode files ≡ (
        if any_parses decode sorted
        then (status_or (last_set decode sorted) turn_absent, uris_or (last_set decode sorted) [])
        else (turn_unknown, [])))
turn_from_config_lem_example = turn_from_config_lem decode files
