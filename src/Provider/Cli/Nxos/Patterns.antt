-- ===== src/Provider/Cli/Nxos/Patterns.antt =====
-- internal/provider/ssh/parser_nxos.go: the regular expressions, each under its text in the source.
use gcisco_exporter.Base.{◌||◌, [], ◌∷◌, nat_eq}
use gcisco_exporter.Regexp.{
  Pattern, is_digit, is_blank, is_solid, is_any, in_set, word, one, some_of, either, both, maybe,
  begin_text, begin_line, plain, group,
}
use gcisco_exporter.Provider.Cli.Patterns.{number, token, digits, blanks, spaces, solids, text}

-- `Kernel uptime is\s+(.+)`
abbrev pub kernel_uptime : Pattern
kernel_uptime = text "Kernel uptime is" ∷ blanks ∷ group (some_of is_any) ∷ []

-- `NXOS:\s+version\s+([^\s]+)`
abbrev pub nxos_version : Pattern
nxos_version = text "NXOS:" ∷ blanks ∷ text "version" ∷ blanks ∷ token ∷ []

-- `Device name:\s+(\S+)`
abbrev pub device_name : Pattern
device_name = text "Device name:" ∷ blanks ∷ token ∷ []

-- `cisco\s+(Nexus\S+\s+Chassis)`
abbrev pub nexus_chassis : Pattern
nexus_chassis =
    text "cisco"
    ∷ blanks
    ∷ group
        (both (word "Nexus") (both (some_of is_solid) (both (some_of is_blank) (word "Chassis"))))
    ∷ []

-- `^\s*(\d+)\s+\d+\s+\d+\s+\d+\s+([\d.]+)%\s+([\d.]+)%\s+([\d.]+)%\s+\d+\s+(\S+)`
abbrev pub cpu_process : Pattern
cpu_process =
    plain begin_text
    ∷ spaces
    ∷ number
    ∷ blanks
    ∷ digits
    ∷ blanks
    ∷ digits
    ∷ blanks
    ∷ digits
    ∷ blanks
    ∷ group (some_of (λ c. is_digit c || nat_eq c b'.'))
    ∷ text "%"
    ∷ blanks
    ∷ group (some_of (λ c. is_digit c || nat_eq c b'.'))
    ∷ text "%"
    ∷ blanks
    ∷ group (some_of (λ c. is_digit c || nat_eq c b'.'))
    ∷ text "%"
    ∷ blanks
    ∷ digits
    ∷ blanks
    ∷ token
    ∷ []

-- `(?m)^(Ethernet\d+/\d+(?:/\d+)?)\s+is\s+(up|down|admin down)`
abbrev pub ethernet_header : Pattern
ethernet_header =
    plain begin_line
    ∷ group (
        both (word "Ethernet") (
          both (some_of is_digit) (
            both (word "/")
              (both (some_of is_digit) (maybe (both (word "/") (some_of is_digit)))))))
    ∷ blanks
    ∷ text "is"
    ∷ blanks
    ∷ group (either (word "up") (either (word "down") (word "admin down")))
    ∷ []

-- `is\s+(up|down|admin down)`
abbrev pub ethernet_status : Pattern
ethernet_status =
    text "is" ∷ blanks ∷ group (either (word "up") (either (word "down") (word "admin down"))) ∷ []

-- `(\d+)\s+input\s+packets\s+(\d+)\s+bytes`
abbrev pub input_packets : Pattern
input_packets =
    number
    ∷ blanks
    ∷ text "input"
    ∷ blanks
    ∷ text "packets"
    ∷ blanks
    ∷ number
    ∷ blanks
    ∷ text "bytes"
    ∷ []

-- `(\d+)\s+output\s+packets\s+(\d+)\s+bytes`
abbrev pub output_packets : Pattern
output_packets =
    number
    ∷ blanks
    ∷ text "output"
    ∷ blanks
    ∷ text "packets"
    ∷ blanks
    ∷ number
    ∷ blanks
    ∷ text "bytes"
    ∷ []

-- `(\d+)\s+\[no\]\s+buffer\s+(\d+)\s+runts\s+(\d+)\s+giants\s+(\d+)\s+CRC`
abbrev pub no_buffer : Pattern
no_buffer =
    number
    ∷ blanks
    ∷ text "[no]"
    ∷ blanks
    ∷ text "buffer"
    ∷ blanks
    ∷ number
    ∷ blanks
    ∷ text "runts"
    ∷ blanks
    ∷ number
    ∷ blanks
    ∷ text "giants"
    ∷ blanks
    ∷ number
    ∷ blanks
    ∷ text "CRC"
    ∷ []

-- `(\d+)\s+input\s+error\s+(\d+)\s+short\s+frame\s+(\d+)\s+overrun\s+(\d+)\s+underrun\s+(\d+)\s+ignored`
abbrev pub input_error : Pattern
input_error =
    number
    ∷ blanks
    ∷ text "input"
    ∷ blanks
    ∷ text "error"
    ∷ blanks
    ∷ number
    ∷ blanks
    ∷ text "short"
    ∷ blanks
    ∷ text "frame"
    ∷ blanks
    ∷ number
    ∷ blanks
    ∷ text "overrun"
    ∷ blanks
    ∷ number
    ∷ blanks
    ∷ text "underrun"
    ∷ blanks
    ∷ number
    ∷ blanks
    ∷ text "ignored"
    ∷ []

-- `(\d+)\s+output\s+error\s+(\d+)\s+collision\s+(\d+)\s+deferred\s+(\d+)\s+late\s+collision`
abbrev pub output_error : Pattern
output_error =
    number
    ∷ blanks
    ∷ text "output"
    ∷ blanks
    ∷ text "error"
    ∷ blanks
    ∷ number
    ∷ blanks
    ∷ text "collision"
    ∷ blanks
    ∷ number
    ∷ blanks
    ∷ text "deferred"
    ∷ blanks
    ∷ number
    ∷ blanks
    ∷ text "late"
    ∷ blanks
    ∷ text "collision"
    ∷ []

-- `(\d+)\s+input\s+discard`
abbrev pub input_discard : Pattern
input_discard = number ∷ blanks ∷ text "input" ∷ blanks ∷ text "discard" ∷ []

-- `(\d+)\s+output\s+discard`
abbrev pub output_discard : Pattern
output_discard = number ∷ blanks ∷ text "output" ∷ blanks ∷ text "discard" ∷ []

-- `(\d+)\s+interface\s+resets`
abbrev pub resets : Pattern
resets = number ∷ blanks ∷ text "interface" ∷ blanks ∷ text "resets" ∷ []

-- `(\d+)\s+if\s+down\s+drop`
abbrev pub if_down_drop : Pattern
if_down_drop = number ∷ blanks ∷ text "if" ∷ blanks ∷ text "down" ∷ blanks ∷ text "drop" ∷ []

-- `MTU\s+(\d+)\s+bytes,\s+BW\s+(\d+)\s+Kbit`
abbrev pub mtu_bandwidth : Pattern
mtu_bandwidth =
    text "MTU"
    ∷ blanks
    ∷ number
    ∷ blanks
    ∷ text "bytes,"
    ∷ blanks
    ∷ text "BW"
    ∷ blanks
    ∷ number
    ∷ blanks
    ∷ text "Kbit"
    ∷ []

-- `^(Fan\S+)\s+\S+\s+\S+\s+\S+\s+(Ok|Failed|Absent)`
abbrev pub fan_line : Pattern
fan_line =
    plain begin_text
    ∷ group (both (word "Fan") (some_of is_solid))
    ∷ blanks
    ∷ solids
    ∷ blanks
    ∷ solids
    ∷ blanks
    ∷ solids
    ∷ blanks
    ∷ group (either (word "Ok") (either (word "Failed") (word "Absent")))
    ∷ []

-- `^(\d+)\s+\S+\s+\d+\s+\d+\s+\d+\s+\d+\s+\d+\s+\S+\s+(Ok|Failed|Check|Absent)`
abbrev pub supply_line : Pattern
supply_line =
    plain begin_text
    ∷ number
    ∷ blanks
    ∷ solids
    ∷ blanks
    ∷ digits
    ∷ blanks
    ∷ digits
    ∷ blanks
    ∷ digits
    ∷ blanks
    ∷ digits
    ∷ blanks
    ∷ digits
    ∷ blanks
    ∷ solids
    ∷ blanks
    ∷ group (either (word "Ok") (either (word "Failed") (either (word "Check") (word "Absent"))))
    ∷ []

-- `^(PS-Redundant|Non-Redundant)`
abbrev pub redundancy_line : Pattern
redundancy_line =
    plain begin_text ∷ group (either (word "PS-Redundant") (word "Non-Redundant")) ∷ []

-- `^(Inlet|Hotspot|BACK|FRONT|CPU|TD2|NS)\s+Temperature\s+Value:\s+(\d+)\s+Degree`
abbrev pub temperature_line : Pattern
temperature_line =
    plain begin_text
    ∷ group (
        either (word "Inlet") (
          either (word "Hotspot") (
            either (word "BACK")
              (either (word "FRONT") (either (word "CPU") (either (word "TD2") (word "NS")))))))
    ∷ blanks
    ∷ text "Temperature"
    ∷ blanks
    ∷ text "Value:"
    ∷ blanks
    ∷ number
    ∷ blanks
    ∷ text "Degree"
    ∷ []

-- `^\*?\s*(\d+)\s+\d+\s+(\d+)\s+\d+\s+\d+\s+(\d+)\s+\d+\s+\S+`
abbrev pub tree_line : Pattern
tree_line =
    plain begin_text
    ∷ plain (maybe (one (in_set (b'*' ∷ []))))
    ∷ spaces
    ∷ number
    ∷ blanks
    ∷ digits
    ∷ blanks
    ∷ number
    ∷ blanks
    ∷ digits
    ∷ blanks
    ∷ digits
    ∷ blanks
    ∷ number
    ∷ blanks
    ∷ digits
    ∷ blanks
    ∷ solids
    ∷ []

-- `Total\s+number\s+of\s+entries:\s*(\S+)`
abbrev pub arp_entries : Pattern
arp_entries =
    text "Total"
    ∷ blanks
    ∷ text "number"
    ∷ blanks
    ∷ text "of"
    ∷ blanks
    ∷ text "entries:"
    ∷ spaces
    ∷ token
    ∷ []

-- `Total\s+number\s+of\s+paths:\s*(\d+)`
abbrev pub route_paths : Pattern
route_paths =
    text "Total"
    ∷ blanks
    ∷ text "number"
    ∷ blanks
    ∷ text "of"
    ∷ blanks
    ∷ text "paths:"
    ∷ spaces
    ∷ number
    ∷ []

-- `bootflash:\s+(\d+)\s+kB`
abbrev pub bootflash : Pattern
bootflash = text "bootflash:" ∷ blanks ∷ number ∷ blanks ∷ text "kB" ∷ []
