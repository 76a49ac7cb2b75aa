-- ===== src/Provider/Cli/Nxos/System.antt =====
-- internal/provider/ssh/parser_nxos.go: version, inventory, processor, environment, NTP and flash.
use gcisco_exporter.Base.{zero, String, Bool, false, ◌||◌, [], ◌∷◌, ◌++◌, insert, if◌then◌else◌}
use gcisco_exporter.Strings.{
  Chars, chars, text_of, same_chars, split_lines, trim_space, trim_commas, has_prefix, contains,
  contains_lower,
}
use gcisco_exporter.Regexp.Find.{on1, on2, find_submatch, find_all_submatch, when1, when2}
use gcisco_exporter.Float.{Float64, value}
use gcisco_exporter.Provider.Cli.{CliVersion, CliCpu, NxosInventory, NxosEnvironment}
use gcisco_exporter.Provider.Cli.Lines.{each, trimmed_lines, raise, is_synchronized}
use gcisco_exporter.Provider.Cli.Patterns.{chassis_name, serial_number, long_uptime}
use gcisco_exporter.Provider.Cli.Nxos.Patterns.{
  kernel_uptime, nxos_version, device_name, nexus_chassis, cpu_process, fan_line, supply_line,
  redundancy_line, temperature_line, bootflash,
}

module _ {F : Type 0} ⦃fl : Float64 F⦄ where
  -- the switch over the unit of a count
  unfoldable pub add_unit : F → F → Chars → F
  unfolding has_prefix
  add_unit total val unit =
      if has_prefix unit "y"
      then fl.plus total (fl.times (fl.times val (fl.of_nat 365)) (fl.of_nat 86400))
      else if has_prefix unit "mo"
      then fl.plus total (fl.times (fl.times val (fl.of_nat 30)) (fl.of_nat 86400))
      else if has_prefix unit "w"
      then fl.plus total (fl.times (fl.times val (fl.of_nat 7)) (fl.of_nat 86400))
      else if has_prefix unit "d"
      then fl.plus total (fl.times val (fl.of_nat 86400))
      else if has_prefix unit "h"
      then fl.plus total (fl.times val (fl.of_nat 3600))
      else if same_chars unit (chars "minute")
      then fl.plus total (fl.times val (fl.of_nat 60))
      else if has_prefix unit "s"
      then fl.plus total val
      else total

  unfoldable pub parse_nxos_uptime : Chars → F
  unfolding find_all_submatch each when2 add_unit value
  parse_nxos_uptime s =
      each (λ total m. when2 m total (λ count unit. add_unit total (value count) unit))
        (fl.of_nat zero) (find_all_submatch long_uptime s)

  unfoldable pub nxos_version_line : CliVersion F → Chars → CliVersion F
  unfolding on1 on2 find_submatch when1 parse_nxos_uptime trim_space
  nxos_version_line v line =
      let v = on1 kernel_uptime line (λ a held. record held { uptime = parse_nxos_uptime a }) v in
      let v = on1 nxos_version line (λ a held. record held { version = text_of a }) v in
      let v = on1 device_name line (λ a held. record held { hostname = text_of a }) v in
      on1 nexus_chassis line (λ a held. record held { model = text_of (trim_space a) }) v

  unfoldable pub parse_nxos_version : String → CliVersion F
  unfolding each trimmed_lines nxos_version_line
  parse_nxos_version output =
      each nxos_version_line
        (record { hostname = ""; version = ""; model = ""; uptime = fl.of_nat zero; serial = "" })
        (trimmed_lines (chars output))

  unfoldable pub nxos_cpu_line : CliCpu F → Chars → CliCpu F
  unfolding on1 on2 find_submatch has_prefix contains_lower value
  nxos_cpu_line cpu line =
      if has_prefix line "PID" || has_prefix line "---"
      then cpu
      else elim (find_submatch cpu_process line) [
        | whole ∷ pid ∷ five ∷ one ∷ minutes ∷ process ∷ more ↦
            if same_chars process (chars "init") || contains_lower process "kernel"
            then record { five_sec = value five; one_min = value one; five_min = value minutes }
            else cpu
        | m ↦ cpu
      ]

  unfoldable pub parse_nxos_cpu : String → CliCpu F
  unfolding each trimmed_lines nxos_cpu_line
  parse_nxos_cpu output =
      each nxos_cpu_line
        (record { five_sec = fl.of_nat zero; one_min = fl.of_nat zero; five_min = fl.of_nat zero })
        (trimmed_lines (chars output))

  unfoldable pub nxos_environment_line : NxosEnvironment F → Chars → NxosEnvironment F
  unfolding on1 on2 find_submatch when1 when2 insert value
  nxos_environment_line env line =
      let env =
        on2 fan_line line
          (λ fan state held. record held {
            fan_status = insert (text_of fan) (same_chars state (chars "Ok")) held.fan_status;
          })
          env in
      let env =
        on2 supply_line line
          (λ supply state held. record held {
            power_supply =
                insert (text_of (chars "PS-" ++ supply)) (same_chars state (chars "Ok"))
                  held.power_supply;
          })
          env in
      let env =
        on1 redundancy_line line
          (λ mode held. record held { power_redund = same_chars mode (chars "PS-Redundant") })
          env in
      on2 temperature_line line
        (λ sensor degrees held. record held {
          temperature = insert (text_of sensor) (value degrees) held.temperature;
        })
        env

  unfoldable pub parse_nxos_environment : String → NxosEnvironment F
  unfolding each trimmed_lines nxos_environment_line
  parse_nxos_environment output =
      each nxos_environment_line
        (record { fan_status = []; power_supply = []; power_redund = false; temperature = [] })
        (trimmed_lines (chars output))

  -- the loop's body: 30 % of a total that is not zero counts as used
  unfoldable pub nxos_flash_line : F → Chars → F
  unfolding on1 on2 find_submatch when1 raise value
  nxos_flash_line max line = when1 (find_submatch bootflash line) max (λ a.
      let total = value a in
      raise max (fl.times total (fl.over (fl.of_nat 3) (fl.of_nat 10))) total)

  unfoldable pub parse_nxos_flash : String → F
  unfolding each split_lines nxos_flash_line
  parse_nxos_flash output = each nxos_flash_line (fl.of_nat zero) (split_lines (chars output))

unfoldable pub nxos_inventory_line : NxosInventory → Chars → NxosInventory
unfolding on1 on2 contains find_submatch when1 trim_commas
nxos_inventory_line inv line =
    let named = on1 chassis_name line (λ a held. record held { chassis = text_of a }) inv in
    let both_set =
      on1 serial_number line (λ a held. record held { serial = text_of (trim_commas a) }) named in
    if contains line "\"Chassis\"" then both_set else inv

unfoldable pub parse_nxos_inventory : String → NxosInventory
unfolding each split_lines nxos_inventory_line
parse_nxos_inventory output =
    each nxos_inventory_line (record { chassis = ""; serial = "" }) (split_lines (chars output))

unfoldable pub parse_nxos_ntp : String → Bool
unfolding is_synchronized
parse_nxos_ntp output = is_synchronized (chars output)
