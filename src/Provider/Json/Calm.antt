-- ===== src/Provider/Json/Calm.antt =====
-- internal/provider/json/json.go: no method panics where the tables of the answers are objects.
use gcisco_exporter.Base.{zero, ◌≡◌, ◌≢◌, refl, String, some, [], ◌⊎◌, inl, inr, Map}
use gcisco_exporter.Int.{ℤ}
use gcisco_exporter.Error.{Error, panics}
use gcisco_exporter.Float.{Float64}
use gcisco_exporter.Provider.Json.{SystemData2}
use gcisco_exporter.Provider.Json.Value.{Fields, objects, find}
use gcisco_exporter.Provider.Json.System.{
  collect_system, collect_interfaces, interfaces_of, collect_optics, optics_of, collect_resources,
  collect_processes, processes_of,
}
use gcisco_exporter.Provider.Json.Switching.{
  collect_stp, collect_mac, mac_of, collect_vlans, vlans_of, collect_l3_tables,
}
use gcisco_exporter.Provider.Json.Channels.{
  add_channel, no_channels, channels_of, collect_port_channels,
}
use gcisco_exporter.Provider.Json.Hardware.{
  add_port, add_buffer, collect_hardware, flash_of, collect_system_info, ratio_of, port_ratio,
  first_flash, buffers_of, capacity_of, collect_capacity,
}
use gcisco_exporter.Provider.Json.Shaped.{
  is_asserted, IsTable, IsShaped, table_rows-some, returns-calm, answered-calm, answer_of-calm,
  each_or_panic-some, add_channel-some, each_row-some, hardware_of-some,
}

module _ {F : Type 0} ⦃fl : Float64 F⦄ (run : String → Error ⊎ Fields F)
    (shaped : (cmd : String) (fields : Fields F) → run cmd ≡ inr fields → IsShaped fields) where
  pub collect_system-calm : collect_system run ≢ panics
  unfolding collect_system
  collect_system-calm = answered-calm _ _ _ (λ e. returns-calm _ _) (λ fields e. returns-calm _ _)

  pub collect_resources-calm : collect_resources run ≢ panics
  unfolding collect_resources
  collect_resources-calm =
      answered-calm _ _ _ (λ e. returns-calm _ _) (λ fields e. returns-calm _ _)

  pub collect_interfaces-calm : collect_interfaces run ≢ panics
  unfolding collect_interfaces interfaces_of is_asserted
  collect_interfaces-calm =
      answered-calm _ _ _ (λ e. returns-calm _ _)
        λ fields answered.
          let (rows, found) =
            table_rows-some "ROW_interface" _
              ((shaped _ fields answered).tables "TABLE_interface" refl) in
          rw found (returns-calm _ _)

  pub collect_optics-calm : collect_optics run ≢ panics
  unfolding collect_optics optics_of is_asserted
  collect_optics-calm =
      answered-calm _ _ _ (λ e. returns-calm _ _)
        λ fields answered.
          let (rows, found) =
            table_rows-some "ROW_interface" _
              ((shaped _ fields answered).tables "TABLE_interface" refl) in
          rw found (returns-calm _ _)

  pub collect_processes-calm : (limit : ℤ) → collect_processes run limit ≢ panics
  unfolding collect_processes processes_of is_asserted
  collect_processes-calm limit =
      answered-calm _ _ _ (λ e. returns-calm _ _)
        λ fields answered.
          let (rows, found) =
            table_rows-some "ROW_process_cpu" _
              ((shaped _ fields answered).tables "TABLE_process_cpu" refl) in
          rw found (returns-calm _ _)

  pub collect_stp-calm : collect_stp run ≢ panics
  unfolding collect_stp
  collect_stp-calm =
      answered-calm _ _ _ (λ e. returns-calm _ _)
        (λ fields e. answered-calm _ _ _ (λ e. returns-calm _ _) (λ fields e. returns-calm _ _))

  pub collect_mac-calm : collect_mac run ≢ panics
  unfolding collect_mac mac_of is_asserted
  collect_mac-calm =
      answered-calm _ _ _ (λ e. returns-calm _ _)
        λ fields answered.
          let (rows, found) =
            table_rows-some "ROW_vlan" _ ((shaped _ fields answered).tables "TABLE_vlan" refl) in
          rw found (returns-calm _ _)

  pub collect_vlans-calm : collect_vlans run ≢ panics
  unfolding collect_vlans vlans_of is_asserted
  collect_vlans-calm =
      answered-calm _ _ _ (λ e. returns-calm _ _)
        λ fields answered.
          let (rows, found) =
            table_rows-some "ROW_vlanbriefxbrief" _
              ((shaped _ fields answered).tables "TABLE_vlanbriefxbrief" refl) in
          rw found (returns-calm _ _)

  pub collect_port_channels-calm : collect_port_channels run ≢ panics
  unfolding collect_port_channels channels_of is_asserted
  collect_port_channels-calm =
      answered-calm _ _ _ (λ e. returns-calm _ _)
        λ fields answered.
          let h = shaped _ fields answered in
          let (rows, found) = table_rows-some "ROW_channel" _ (h.tables "TABLE_channel" refl) in
          let (result, all) =
            each_or_panic-some (λ m. IsTable (find "TABLE_member" m)) add_channel add_channel-some
              no_channels (objects rows) (h.members rows found) in
          rw found (answer_of-calm _ result all)

  pub collect_l3_tables-calm : collect_l3_tables run ≢ panics
  unfolding collect_l3_tables
  collect_l3_tables-calm = returns-calm _ _

  pub collect_hardware-calm : collect_hardware run ≢ panics
  unfolding collect_hardware
  collect_hardware-calm =
      answered-calm _ _ _ (λ e. returns-calm _ _)
        λ fields answered.
          let (result, e) = hardware_of-some fields (shaped _ fields answered) in
          answer_of-calm _ result e

  flash_of-some :
      (r : Error ⊎ Fields F) (held : SystemData2 F)
      → ((fields : Fields F) → r ≡ inr fields → IsShaped fields)
      → (result : SystemData2 F) × (flash_of r held ≡ some result)
  unfolding flash_of is_asserted
  flash_of-some (inl err) held h = (held, refl)
  flash_of-some (inr fields) held h =
      let (rows, found) =
        table_rows-some "ROW_filesys" _ ((h fields refl).tables "TABLE_filesys" refl) in
      (
        record held { flash_util = first_flash held.flash_util (objects rows) },
        rw (found, flash_of) refl,
      )

  pub collect_system_info-calm : collect_system_info run ≢ panics
  unfolding collect_system_info
  collect_system_info-calm =
      let (result, e) =
        flash_of-some (run "show file systems | json") _ (shaped "show file systems | json") in
      answer_of-calm _ result e

  ratio_of-some :
      (r : Error ⊎ Fields F)
      → ((fields : Fields F) → r ≡ inr fields → IsShaped fields)
      → (ratio : F) × (ratio_of r ≡ some ratio)
  unfolding ratio_of is_asserted
  ratio_of-some (inl err) h = (_, refl)
  ratio_of-some (inr fields) h =
      let (ports, found) =
        each_row-some "TABLE_interface" "ROW_interface" fields add_port (zero, zero)
          ((h fields refl).tables "TABLE_interface" refl) in
      (port_ratio ports, rw (found, ratio_of) refl)

  buffers_of-some :
      (r : Error ⊎ Fields F)
      → ((fields : Fields F) → r ≡ inr fields → IsShaped fields)
      → (buffers : Map F) × (buffers_of r ≡ some buffers)
  unfolding buffers_of is_asserted
  buffers_of-some (inl err) h = ([], refl)
  buffers_of-some (inr fields) h =
      each_row-some "TABLE_buffer_pool" "ROW_buffer_pool" fields add_buffer []
        ((h fields refl).tables "TABLE_buffer_pool" refl)

  pub collect_capacity-calm : collect_capacity run ≢ panics
  unfolding collect_capacity capacity_of
  collect_capacity-calm =
      let (ratio, e) =
        ratio_of-some (run "show interface | json") (shaped "show interface | json") in
      let (buffers, f) =
        buffers_of-some (run "show buffers | json") (shaped "show buffers | json") in
      rw (e, f) (returns-calm _ _)
