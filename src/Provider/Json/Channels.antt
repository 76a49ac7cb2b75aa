-- ===== src/Provider/Json/Channels.antt =====
-- internal/provider/json/json.go: `CollectPortChannels`.
use gcisco_exporter.Base.{
  zero, String, Bool, ◌||◌, Option, none, some, List, [], ◌∷◌, ◌++◌, ◌⊎◌, Map, insert, ◌==◌,
  if◌then◌else◌,
}
use gcisco_exporter.Error.{Error, Answer, panics, returns}
use gcisco_exporter.Float.{Float64}
use gcisco_exporter.Provider.Cli.Lines.{each, each_or_panic}
use gcisco_exporter.Provider.Json.{PortChannelData}
use gcisco_exporter.Provider.Json.Value.{Json, Fields, array, object, objects, items, find}
use gcisco_exporter.Provider.Json.Exec.{string_field, table_rows, on_answer, answer_of}

unfoldable pub is_status_up : String → Bool
is_status_up status = status == "U" || status == "P" || status == "D" || status == "up"

unfoldable pub is_member_active : String → Bool
is_member_active status = status == "P" || status == "U" || status == "D"

-- the three variables of the loop over the members of a port channel
pub record Members (F : Type 0) : Type 0 where
  pub suspended : F
  pub member_map : Map Bool
  pub member_names : List String

module _ {F : Type 0} ⦃fl : Float64 F⦄ where
  unfoldable pub add_member : Members F → Fields F → Members F
  add_member held mm =
      let iface = string_field mm "port" in
      let is_active = is_member_active (string_field mm "port-status") in
      if iface == "" then held else record {
        suspended = if is_active then held.suspended else fl.plus held.suspended (fl.of_nat 1);
        member_map = insert iface is_active held.member_map;
        member_names = held.member_names ++ iface ∷ [];
      }

  unfoldable pub members_of : List (Fields F) → Members F
  members_of rows =
      each add_member (record { suspended = fl.of_nat zero; member_map = []; member_names = [] })
        rows

  unfoldable pub no_channels : PortChannelData F
  no_channels = record { status = []; member_status = []; suspended_members = []; members = [] }

  unfoldable pub set_members : String → List (Fields F) → PortChannelData F → PortChannelData F
  set_members pc rows result =
      let held = members_of rows in
      record result {
        member_status = insert pc held.member_map result.member_status;
        suspended_members = insert pc held.suspended result.suspended_members;
        members = insert pc held.member_names result.members;
      }

  unfoldable pub with_rows : String → Option (Json F) → PortChannelData F → PortChannelData F
  with_rows pc (some (array vs)) result = set_members pc (objects (items vs)) result
  with_rows pc other result = result

  -- `m["TABLE_member"]`, whose rows count where they are a list
  unfoldable pub with_members :
      String → Option (Json F) → PortChannelData F → Option (PortChannelData F)
  with_members pc none result = some result
  with_members pc (some (object table)) result =
      some (with_rows pc (find "ROW_member" table) result)
  with_members pc (some other) result = none

  -- `port-channel`, or else `port_channel`
  unfoldable pub channel_name : Fields F → String
  channel_name m =
      if string_field m "port-channel" == ""
      then string_field m "port_channel"
      else string_field m "port-channel"

  unfoldable pub add_channel : PortChannelData F → Fields F → Option (PortChannelData F)
  add_channel result m =
      let pc = channel_name m in
      let with_status = record result {
        status = insert pc (is_status_up (string_field m "status")) result.status;
      } in
      if pc == "" then some result else with_members pc (find "TABLE_member" m) with_status

  unfoldable pub channels_of : Option (List (Json F)) → Answer (PortChannelData F)
  channels_of none = panics
  channels_of (some rows) = answer_of (each_or_panic add_channel no_channels (objects rows))

  unfoldable pub collect_port_channels : (String → Error ⊎ Fields F) → Answer (PortChannelData F)
  collect_port_channels run =
      on_answer (run "show port-channel summary | json") (λ err. returns no_channels none)
        (λ fields. channels_of (table_rows "ROW_channel" (find "TABLE_channel" fields)))
