-- ===== src/Provider/Cli/Patterns.antt =====
-- internal/provider/ssh/parser_*.go: the regular expressions that more than one parser compiles, each under
-- its text in the source.
use gcisco_exporter.Base.{String, ◌||◌, not, [], ◌∷◌, nat_eq}
use gcisco_exporter.Regexp.{
  Pattern, Part, is_digit, is_blank, is_solid, is_any, in_set, not_in_set, word, one, many, some_of,
  either, both, maybe, begin_text, begin_line, end_text, boundary, plain, group,
}

abbrev pub number : Part
number = group (some_of is_digit)

abbrev pub token : Part
token = group (some_of is_solid)

abbrev pub digits : Part
digits = plain (some_of is_digit)

abbrev pub blanks : Part
blanks = plain (some_of is_blank)

abbrev pub spaces : Part
spaces = plain (many is_blank)

abbrev pub solids : Part
solids = plain (some_of is_solid)

abbrev pub text : String → Part
text s = plain (word s)

-- `\s+is\s+.*$`
abbrev pub header_tail : Pattern
header_tail = blanks ∷ text "is" ∷ blanks ∷ plain (many is_any) ∷ plain end_text ∷ []

-- `DESCR:\s*"([^"]+)"`
abbrev pub chassis_name : Pattern
chassis_name =
    text "DESCR:" ∷ spaces ∷ text "\"" ∷ group (some_of (not_in_set (34 ∷ []))) ∷ text "\"" ∷ []

-- `SN:\s+(\S+)`
abbrev pub serial_number : Pattern
serial_number = text "SN:" ∷ blanks ∷ token ∷ []

-- `^(\d+)\s+\S+\s+act/`
abbrev pub vlan_active : Pattern
vlan_active = plain begin_text ∷ number ∷ blanks ∷ solids ∷ blanks ∷ text "act/" ∷ []

-- `^(\d+)\s+\S+\s+(susp|act/)`
abbrev pub vlan_listed : Pattern
vlan_listed =
    plain begin_text
    ∷ number
    ∷ blanks
    ∷ solids
    ∷ blanks
    ∷ group (either (word "susp") (word "act/"))
    ∷ []

-- `(\d+)\s*(year|month|week|day|hour|minute|second)s?`
abbrev pub long_uptime : Pattern
long_uptime =
    number
    ∷ spaces
    ∷ group (
        either (word "year") (
          either (word "month") (
            either (word "week") (
              either (word "day")
                (either (word "hour") (either (word "minute") (word "second")))))))
    ∷ plain (maybe (one (nat_eq b's')))
    ∷ []

-- `(?m)^(\S+)\s+is\s+(up|down|administratively down)`
abbrev pub ios_header : Pattern
ios_header =
    plain begin_line
    ∷ token
    ∷ blanks
    ∷ text "is"
    ∷ blanks
    ∷ group (either (word "up") (either (word "down") (word "administratively down")))
    ∷ []

-- `is\s+(up|down|administratively down)`
abbrev pub ios_status : Pattern
ios_status =
    text "is"
    ∷ blanks
    ∷ group (either (word "up") (either (word "down") (word "administratively down")))
    ∷ []

-- `(\d+)\s+packets\s+input[,\s]+(\d+)\s+bytes`
abbrev pub packets_input : Pattern
packets_input =
    number
    ∷ blanks
    ∷ text "packets"
    ∷ blanks
    ∷ text "input"
    ∷ plain (some_of (λ c. is_blank c || nat_eq c b','))
    ∷ number
    ∷ blanks
    ∷ text "bytes"
    ∷ []

-- `(\d+)\s+packets\s+output[,\s]+(\d+)\s+bytes`
abbrev pub packets_output : Pattern
packets_output =
    number
    ∷ blanks
    ∷ text "packets"
    ∷ blanks
    ∷ text "output"
    ∷ plain (some_of (λ c. is_blank c || nat_eq c b','))
    ∷ number
    ∷ blanks
    ∷ text "bytes"
    ∷ []

-- `(\d+)\s+input\s+errors[,\s]+(\d+)\s+CRC`
abbrev pub input_errors : Pattern
input_errors =
    number
    ∷ blanks
    ∷ text "input"
    ∷ blanks
    ∷ text "errors"
    ∷ plain (some_of (λ c. is_blank c || nat_eq c b','))
    ∷ number
    ∷ blanks
    ∷ text "CRC"
    ∷ []

-- `(\d+)\s+output\s+errors[,\s]+(\d+)\s+collisions`
abbrev pub output_errors : Pattern
output_errors =
    number
    ∷ blanks
    ∷ text "output"
    ∷ blanks
    ∷ text "errors"
    ∷ plain (some_of (λ c. is_blank c || nat_eq c b','))
    ∷ number
    ∷ blanks
    ∷ text "collisions"
    ∷ []

-- `\b(\d+)\s+runts\b`
abbrev pub runts : Pattern
runts = plain boundary ∷ number ∷ blanks ∷ text "runts" ∷ plain boundary ∷ []

-- `\b(\d+)\s+giants\b`
abbrev pub giants : Pattern
giants = plain boundary ∷ number ∷ blanks ∷ text "giants" ∷ plain boundary ∷ []

-- `\b(\d+)\s+input\s+drops\b`
abbrev pub input_drops : Pattern
input_drops =
    plain boundary ∷ number ∷ blanks ∷ text "input" ∷ blanks ∷ text "drops" ∷ plain boundary ∷ []

-- `\b(\d+)\s+input\s+discards\b`
abbrev pub input_discards : Pattern
input_discards =
    plain boundary ∷ number ∷ blanks ∷ text "input" ∷ blanks ∷ text "discards" ∷ plain boundary ∷ []

-- `\b(\d+)\s+output\s+discards\b`
abbrev pub output_discards : Pattern
output_discards =
    plain boundary
    ∷ number
    ∷ blanks
    ∷ text "output"
    ∷ blanks
    ∷ text "discards"
    ∷ plain boundary
    ∷ []

-- `\b(\d+)\s+interface\s+resets\b`
abbrev pub interface_resets : Pattern
interface_resets =
    plain boundary
    ∷ number
    ∷ blanks
    ∷ text "interface"
    ∷ blanks
    ∷ text "resets"
    ∷ plain boundary
    ∷ []

-- `[Mm]TU\s+(\d+)`
abbrev pub mtu : Pattern
mtu = plain (one (in_set (b'M' ∷ b'm' ∷ []))) ∷ text "TU" ∷ blanks ∷ number ∷ []

-- `BW\s+(\d+)\s+([KMGT]?)bit`
abbrev pub bandwidth : Pattern
bandwidth =
    text "BW"
    ∷ blanks
    ∷ number
    ∷ blanks
    ∷ group (maybe (one (in_set (b'K' ∷ b'M' ∷ b'G' ∷ b'T' ∷ []))))
    ∷ text "bit"
    ∷ []

-- `uptime is\s+(.+)`
abbrev pub uptime_is : Pattern
uptime_is = text "uptime is" ∷ blanks ∷ group (some_of is_any) ∷ []

-- `[Vv]ersion\s+([^\s,]+)`
abbrev pub version_is : Pattern
version_is =
    plain (one (in_set (b'V' ∷ b'v' ∷ [])))
    ∷ text "ersion"
    ∷ blanks
    ∷ group (some_of (λ c. not (is_blank c || nat_eq c b',')))
    ∷ []

-- `cisco\s+(\S+)\s+.*processor`
abbrev pub cisco_model : Pattern
cisco_model = text "cisco" ∷ blanks ∷ token ∷ blanks ∷ plain (many is_any) ∷ text "processor" ∷ []

-- `^(\S+)\s+uptime`
abbrev pub host_uptime : Pattern
host_uptime = plain begin_text ∷ token ∷ blanks ∷ text "uptime" ∷ []

-- `VLAN0*(\d+)\s+.*\s+(\d+)\s+.*\s+(\d+)\s+.*\s+(\d+)`
abbrev pub vlan_tree : Pattern
vlan_tree =
    text "VLAN"
    ∷ plain (many (nat_eq b'0'))
    ∷ number
    ∷ blanks
    ∷ plain (many is_any)
    ∷ blanks
    ∷ number
    ∷ blanks
    ∷ plain (many is_any)
    ∷ blanks
    ∷ number
    ∷ blanks
    ∷ plain (many is_any)
    ∷ blanks
    ∷ number
    ∷ []

-- `Total\s+Mac\s+Addresses:\s*(\d+)`
abbrev pub mac_total : Pattern
mac_total = text "Total" ∷ blanks ∷ text "Mac" ∷ blanks ∷ text "Addresses:" ∷ spaces ∷ number ∷ []

-- `Total\s+(?:number\s+of\s+)?entries\s*:\s*(\d+)`
abbrev pub arp_total : Pattern
arp_total =
    text "Total"
    ∷ blanks
    ∷ plain (
        maybe
          (both (word "number") (both (some_of is_blank) (both (word "of") (some_of is_blank)))))
    ∷ text "entries"
    ∷ spaces
    ∷ text ":"
    ∷ spaces
    ∷ number
    ∷ []

-- `Total\s+(?:number\s+of\s+)?(?:routes|entries)\s*:\s*(\d+)`
abbrev pub route_total : Pattern
route_total =
    text "Total"
    ∷ blanks
    ∷ plain (
        maybe
          (both (word "number") (both (some_of is_blank) (both (word "of") (some_of is_blank)))))
    ∷ plain (either (word "routes") (word "entries"))
    ∷ spaces
    ∷ text ":"
    ∷ spaces
    ∷ number
    ∷ []

-- `(\d+)\s+(\d+)\s+`
abbrev pub two_numbers : Pattern
two_numbers = number ∷ blanks ∷ number ∷ blanks ∷ []
