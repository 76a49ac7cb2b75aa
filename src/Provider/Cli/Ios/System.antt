-- ===== src/Provider/Cli/Ios/System.antt =====
-- internal/provider/ssh/parser_ios_classic.go: version, processor, NTP and flash.
use gcisco_exporter.Base.{zero, String, Bool, ◌&&◌, if◌then◌else◌}
use gcisco_exporter.Strings.{Chars, chars, text_of, has_prefix}
use gcisco_exporter.Regexp.Find.{on1, on2, find_submatch, find_all_submatch, when1, when2, when3}
use gcisco_exporter.Float.{Float64, value}
use gcisco_exporter.Provider.Cli.{CliVersion, CliCpu}
use gcisco_exporter.Provider.Cli.Lines.{each, trimmed_lines, raise, is_synchronized}
use gcisco_exporter.Provider.Cli.Patterns.{
  uptime_is, version_is, cisco_model, host_uptime, two_numbers,
}
use gcisco_exporter.Provider.Cli.Ios.Patterns.{
  serial_line, five_seconds, one_minute, five_minutes, cpu_percentages, short_uptime,
}

module _ {F : Type 0} ⦃fl : Float64 F⦄ where
  -- the switch over the unit of a count
  unfoldable pub add_ios_unit : F → F → Chars → F
  unfolding has_prefix
  add_ios_unit total val unit =
      if has_prefix unit "y"
      then fl.plus total (fl.times (fl.times val (fl.of_nat 365)) (fl.of_nat 86400))
      else if has_prefix unit "w"
      then fl.plus total (fl.times (fl.times val (fl.of_nat 7)) (fl.of_nat 86400))
      else if has_prefix unit "d"
      then fl.plus total (fl.times val (fl.of_nat 86400))
      else if has_prefix unit "h"
      then fl.plus total (fl.times val (fl.of_nat 3600))
      else if has_prefix unit "m"
      then fl.plus total (fl.times val (fl.of_nat 60))
      else if has_prefix unit "s"
      then fl.plus total val
      else total

  unfoldable pub parse_uptime_string : Chars → F
  unfolding find_all_submatch each when2 add_ios_unit value
  parse_uptime_string s =
      each (λ total m. when2 m total (λ count unit. add_ios_unit total (value count) unit))
        (fl.of_nat zero) (find_all_submatch short_uptime s)

  unfoldable pub version_line : CliVersion F → Chars → CliVersion F
  unfolding on1 on2 find_submatch when1 parse_uptime_string
  version_line v line =
      let v = on1 uptime_is line (λ a held. record held { uptime = parse_uptime_string a }) v in
      let v = on1 version_is line (λ a held. record held { version = text_of a }) v in
      let v = on1 cisco_model line (λ a held. record held { model = text_of a }) v in
      let v = on1 serial_line line (λ a held. record held { serial = text_of a }) v in
      on1 host_uptime line (λ a held. record held { hostname = text_of a }) v

  unfoldable pub parse_version : String → CliVersion F
  unfolding each trimmed_lines version_line
  parse_version output =
      each version_line
        (record { hostname = ""; version = ""; model = ""; uptime = fl.of_nat zero; serial = "" })
        (trimmed_lines (chars output))

  unfoldable pub cpu_line : CliCpu F → Chars → CliCpu F
  unfolding on1 on2 find_submatch when1 when3 value
  cpu_line cpu line =
      let cpu = on1 five_seconds line (λ a held. record held { five_sec = value a }) cpu in
      let cpu = on1 one_minute line (λ a held. record held { one_min = value a }) cpu in
      let cpu = on1 five_minutes line (λ a held. record held { five_min = value a }) cpu in
      let all_zero =
        fl.same cpu.five_sec (fl.of_nat zero)
        && fl.same cpu.one_min (fl.of_nat zero)
        && fl.same cpu.five_min (fl.of_nat zero) in
      if all_zero
      then when3 (find_submatch cpu_percentages line) cpu (λ five one minutes. record {
        five_sec = value five;
        one_min = value one;
        five_min = value minutes;
      })
      else cpu

  unfoldable pub parse_cpu : String → CliCpu F
  unfolding each trimmed_lines cpu_line
  parse_cpu output =
      each cpu_line
        (record { five_sec = fl.of_nat zero; one_min = fl.of_nat zero; five_min = fl.of_nat zero })
        (trimmed_lines (chars output))

  unfoldable pub parse_flash_utilization : String → F
  unfolding each find_all_submatch when2 raise value
  parse_flash_utilization output =
      each (λ max m. when2 m max (λ total used. raise max (value used) (value total)))
        (fl.of_nat zero) (find_all_submatch two_numbers (chars output))

unfoldable pub parse_ntp_status : String → Bool
unfolding is_synchronized
parse_ntp_status output = is_synchronized (chars output)
