-- ===== src/Provider/Cli/Iosxe/System.antt =====
-- internal/provider/ssh/parser_iosxe.go: version, inventory, processor, environment, NTP and flash.
use gcisco_exporter.Base.{zero, String, Bool, ◌||◌, [], insert, if◌then◌else◌}
use gcisco_exporter.Strings.{
  Chars, chars, text_of, same_chars, split_lines, trim_commas, has_prefix, contains,
}
use gcisco_exporter.Regexp.Find.{on1, on2, find_submatch, find_all_submatch, when1, when2, when4}
use gcisco_exporter.Float.{Float64, value}
use gcisco_exporter.Provider.Cli.{CliVersion, CliCpu, IosxeInventory, IosxeEnvironment}
use gcisco_exporter.Provider.Cli.Lines.{each, trimmed_lines, raise, is_synchronized}
use gcisco_exporter.Provider.Cli.Patterns.{
  chassis_name, serial_number, long_uptime, uptime_is, version_is, cisco_model, host_uptime,
  two_numbers,
}
use gcisco_exporter.Provider.Cli.Iosxe.Patterns.{
  cpu_line, switch_fan, supply_fan, inlet_temperature, supply_state,
}

module _ {F : Type 0} ⦃fl : Float64 F⦄ where
  -- the switch over the unit of a count
  unfoldable pub add_iosxe_unit : F → F → Chars → F
  unfolding has_prefix
  add_iosxe_unit total val unit =
      if has_prefix unit "y"
      then fl.plus total (fl.times (fl.times val (fl.of_nat 365)) (fl.of_nat 86400))
      else if has_prefix unit "mo"
      then fl.plus total (fl.times (fl.times val (fl.of_nat 30)) (fl.of_nat 86400))
      else if has_prefix unit "w"
      then fl.plus total (fl.times (fl.times val (fl.of_nat 7)) (fl.of_nat 86400))
      else if has_prefix unit "d"
      then fl.plus total (fl.times val (fl.of_nat 86400))
      else if has_prefix unit "h"
      then fl.plus total (fl.times val (fl.of_nat 3600))
      else if same_chars unit (chars "minute")
      then fl.plus total (fl.times val (fl.of_nat 60))
      else if has_prefix unit "s"
      then fl.plus total val
      else total

  unfoldable pub parse_iosxe_uptime : Chars → F
  unfolding find_all_submatch each when2 add_iosxe_unit value
  parse_iosxe_uptime s =
      each (λ total m. when2 m total (λ count unit. add_iosxe_unit total (value count) unit))
        (fl.of_nat zero) (find_all_submatch long_uptime s)

  unfoldable pub iosxe_version_line : CliVersion F → Chars → CliVersion F
  unfolding on1 on2 find_submatch when1 parse_iosxe_uptime
  iosxe_version_line v line =
      let v = on1 uptime_is line (λ a held. record held { uptime = parse_iosxe_uptime a }) v in
      let v = on1 version_is line (λ a held. record held { version = text_of a }) v in
      let v = on1 cisco_model line (λ a held. record held { model = text_of a }) v in
      on1 host_uptime line (λ a held. record held { hostname = text_of a }) v

  unfoldable pub parse_iosxe_version : String → CliVersion F
  unfolding each trimmed_lines iosxe_version_line
  parse_iosxe_version output =
      each iosxe_version_line
        (record { hostname = ""; version = ""; model = ""; uptime = fl.of_nat zero; serial = "" })
        (trimmed_lines (chars output))

  unfoldable pub parse_iosxe_cpu : String → CliCpu F
  unfolding on1 on2 each trimmed_lines find_submatch when4 value
  parse_iosxe_cpu output =
      each
        (λ cpu line. when4 (find_submatch cpu_line line) cpu (λ five interrupt one minutes. record {
          five_sec = value five;
          one_min = value one;
          five_min = value minutes;
        }))
        (record { five_sec = fl.of_nat zero; one_min = fl.of_nat zero; five_min = fl.of_nat zero })
        (trimmed_lines (chars output))

  unfoldable pub iosxe_environment_line : IosxeEnvironment F → Chars → IosxeEnvironment F
  unfolding on1 on2 find_submatch when2 insert value
  iosxe_environment_line env line =
      let env =
        on2 switch_fan line
          (λ fan state held. record held {
            fan_status = insert (text_of fan) (same_chars state (chars "OK")) held.fan_status;
          })
          env in
      let env =
        on2 supply_fan line
          (λ fan state held. record held {
            fan_status = insert (text_of fan) (same_chars state (chars "OK")) held.fan_status;
          })
          env in
      let env =
        on2 inlet_temperature line
          (λ sensor degrees held. record held {
            temperature = insert (text_of sensor) (value degrees) held.temperature;
          })
          env in
      on2 supply_state line
        (λ supply state held. record held {
          power_supply = insert (text_of supply) (same_chars state (chars "OK")) held.power_supply;
        })
        env

  unfoldable pub parse_iosxe_environment : String → IosxeEnvironment F
  unfolding each trimmed_lines iosxe_environment_line
  parse_iosxe_environment output =
      each iosxe_environment_line (record { fan_status = []; power_supply = []; temperature = [] })
        (trimmed_lines (chars output))

  unfoldable pub parse_iosxe_flash : String → F
  unfolding each find_all_submatch when2 raise value
  parse_iosxe_flash output =
      each (λ max m. when2 m max (λ total used. raise max (value used) (value total)))
        (fl.of_nat zero) (find_all_submatch two_numbers (chars output))

unfoldable pub iosxe_inventory_line : IosxeInventory → Chars → IosxeInventory
unfolding on1 on2 contains find_submatch when1 trim_commas
iosxe_inventory_line inv line =
    let named = on1 chassis_name line (λ a held. record held { model = text_of a }) inv in
    let both_set =
      on1 serial_number line (λ a held. record held { serial = text_of (trim_commas a) }) named in
    if contains line "\"Chassis\"" || contains line "\"Switch 1\"" then both_set else inv

unfoldable pub parse_iosxe_inventory : String → IosxeInventory
unfolding each split_lines iosxe_inventory_line
parse_iosxe_inventory output =
    each iosxe_inventory_line (record { model = ""; serial = "" }) (split_lines (chars output))

unfoldable pub parse_iosxe_ntp : String → Bool
unfolding is_synchronized
parse_iosxe_ntp output = is_synchronized (chars output)
