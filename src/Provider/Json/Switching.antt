-- ===== src/Provider/Json/Switching.antt =====
-- internal/provider/json/json.go: spanning tree, MAC addresses, VLANs, port channels and layer 3.
use gcisco_exporter.Base.{
  zero, ◌+◌, String, Bool, ◌||◌, Option, none, some, List, [], ◌∷◌, ◌⊎◌, insert, ◌==◌,
  if◌then◌else◌,
}
use gcisco_exporter.Error.{Error, Answer, panics, returns}
use gcisco_exporter.Float.{Float64}
use gcisco_exporter.Provider.Cli.Lines.{each}
use gcisco_exporter.Provider.Json.{StpData, MacData, VlanData, L3TableData}
use gcisco_exporter.Provider.Json.Value.{Json, Fields, array, object, objects, items, find}
use gcisco_exporter.Provider.Json.Exec.{string_field, num_field, table_rows, on_answer, if_answered}

module _ {F : Type 0} ⦃fl : Float64 F⦄ where
  unfoldable pub no_stp : StpData F
  no_stp = record {
    root_changes = [];
    topo_changes = [];
    port_state_changes = [];
    blocked_ports = [];
    bpdu_guard_events = [];
  }

  -- `parseSTPRow`
  unfoldable pub parse_stp_row : StpData F → Fields F → StpData F
  parse_stp_row result m =
      let vlan = string_field m "stp_tree_summary" in
      if vlan == "" then result else record result {
        blocked_ports = insert vlan (num_field m "blocking") result.blocked_ports;
      }

  -- `parseSTPDetailRow`
  unfoldable pub parse_stp_detail_row : StpData F → Fields F → StpData F
  parse_stp_detail_row result m =
      let vlan = string_field m "vlan_id" in
      if vlan == "" then result else record result {
        root_changes = insert vlan (num_field m "root_changes") result.root_changes;
        topo_changes = insert vlan (num_field m "topology_changes") result.topo_changes;
      }

  -- the rows of a table whose row, or which itself, is one object or a list of them
  unfoldable pub row_objects : Option (Json F) → List (Fields F)
  row_objects (some (array vs)) = objects (items vs)
  row_objects (some (object m)) = m ∷ []
  row_objects other = []

  unfoldable pub stp_rows : String → Option (Json F) → List (Fields F)
  stp_rows row (some (object table)) = row_objects (find row table)
  stp_rows row (some (array vs)) = objects (items vs)
  stp_rows row other = []

  unfoldable pub collect_stp : (String → Error ⊎ Fields F) → Answer (StpData F)
  collect_stp run =
      on_answer (run "show spanning-tree summary | json") (λ err. returns no_stp none)
        (λ fields.
          let result = each parse_stp_row no_stp (stp_rows "ROW_tree" (find "TABLE_tree" fields)) in
          on_answer (run "show spanning-tree detail | json") (λ err. returns result none)
            (λ detail.
              returns
                (each parse_stp_detail_row result (stp_rows "ROW_vlan" (find "TABLE_vlan" detail)))
                none))

  unfoldable pub no_mac : MacData F
  no_mac = record { table_utilization = fl.of_nat zero; table_count = fl.of_nat zero; moves = [] }

  unfoldable pub add_moves : MacData F → Fields F → MacData F
  add_moves result m =
      let vlan = string_field m "vlan_id" in
      if vlan == ""
      then result
      else record result { moves = insert vlan (num_field m "mac_move_count") result.moves }

  unfoldable pub mac_of : Fields F → Option (List (Json F)) → Answer (MacData F)
  mac_of fields none = panics
  mac_of fields (some rows) =
      returns
        (each add_moves (record no_mac { table_count = num_field fields "mac_table_count" })
          (objects rows))
        none

  unfoldable pub collect_mac : (String → Error ⊎ Fields F) → Answer (MacData F)
  collect_mac run =
      on_answer (run "show mac address-table count | json") (λ err. returns no_mac none)
        (λ fields. mac_of fields (table_rows "ROW_vlan" (find "TABLE_vlan" fields)))

  unfoldable pub is_active_row : Fields F → Bool
  is_active_row m =
      string_field m "vlan_state" == "active" || string_field m "vlan_state" == "act/unsup"

  unfoldable pub add_vlan : VlanData → Fields F → VlanData
  add_vlan result m = record {
    count = result.count + 1;
    active = if is_active_row m then result.active + 1 else result.active;
  }

  unfoldable pub vlans_of : Option (List (Json F)) → Answer VlanData
  vlans_of none = panics
  vlans_of (some rows) =
      returns (each add_vlan (record { count = zero; active = zero }) (objects rows)) none

  unfoldable pub collect_vlans : (String → Error ⊎ Fields F) → Answer VlanData
  collect_vlans run =
      on_answer (run "show vlan brief | json")
        (λ err. returns (record { count = zero; active = zero }) none)
        (λ fields.
          vlans_of (table_rows "ROW_vlanbriefxbrief" (find "TABLE_vlanbriefxbrief" fields)))

  unfoldable pub no_l3 : L3TableData F
  no_l3 = record {
    arp_utilization = fl.of_nat zero;
    arp_count = fl.of_nat zero;
    routing_utilization = fl.of_nat zero;
    fib_utilization = fl.of_nat zero;
    adjacency_utilization = fl.of_nat zero;
  }

  unfoldable pub collect_l3_tables : (String → Error ⊎ Fields F) → Answer (L3TableData F)
  collect_l3_tables run =
      let arp =
        if_answered (run "show ip arp summary | json")
          (λ fields result. record result {
            arp_count = num_field fields "total_entries";
            arp_utilization = num_field fields "total_entries";
          })
          no_l3 in
      let route =
        if_answered (run "show ip route summary | json")
          (λ fields result. record result { routing_utilization = num_field fields "total_routes" })
          arp in
      let cef =
        if_answered (run "show ip cef summary | json")
          (λ fields result. record result { fib_utilization = num_field fields "total_routes" })
          route in
      let adjacency =
        if_answered (run "show adjacency summary | json")
          (λ fields result. record result {
            adjacency_utilization = num_field fields "total_entries";
          })
          cef in
      returns adjacency none
