-- ===== src/Provider/Cli/Iosxe/Patterns.antt =====
-- internal/provider/ssh/parser_iosxe.go: the regular expressions, each under its text in the source.
use gcisco_exporter.Base.{[], ◌∷◌}
use gcisco_exporter.Regexp.{
  Pattern, is_digit, is_blank, is_any, word, some_of, few, either, both, begin_text, plain, group,
}
use gcisco_exporter.Provider.Cli.Patterns.{number, token, blanks, spaces, solids, text}

-- `CPU\s+utilization.*?(\d+)%/(\d+)%;\s+one\s+minute:\s+(\d+)%;\s+five\s+minutes:\s+(\d+)%`
abbrev pub cpu_line : Pattern
cpu_line =
    text "CPU"
    ∷ blanks
    ∷ text "utilization"
    ∷ plain (few is_any)
    ∷ number
    ∷ text "%/"
    ∷ number
    ∷ text "%;"
    ∷ blanks
    ∷ text "one"
    ∷ blanks
    ∷ text "minute:"
    ∷ blanks
    ∷ number
    ∷ text "%;"
    ∷ blanks
    ∷ text "five"
    ∷ blanks
    ∷ text "minutes:"
    ∷ blanks
    ∷ number
    ∷ text "%"
    ∷ []

-- `Total\s+output\s+drops:\s*(\d+)`
abbrev pub total_output_drops : Pattern
total_output_drops =
    text "Total" ∷ blanks ∷ text "output" ∷ blanks ∷ text "drops:" ∷ spaces ∷ number ∷ []

-- `^(Switch\s+\d+\s+Fan\s+\d+)\s+is\s+(OK|FAILED)`
abbrev pub switch_fan : Pattern
switch_fan =
    plain begin_text
    ∷ group (
        both (word "Switch") (
          both (some_of is_blank) (
            both (some_of is_digit) (
              both (some_of is_blank)
                (both (word "Fan") (both (some_of is_blank) (some_of is_digit)))))))
    ∷ blanks
    ∷ text "is"
    ∷ blanks
    ∷ group (either (word "OK") (word "FAILED"))
    ∷ []

-- `^(FAN\s+PS-\d+)\s+is\s+(OK|FAILED)`
abbrev pub supply_fan : Pattern
supply_fan =
    plain begin_text
    ∷ group (both (word "FAN") (both (some_of is_blank) (both (word "PS-") (some_of is_digit))))
    ∷ blanks
    ∷ text "is"
    ∷ blanks
    ∷ group (either (word "OK") (word "FAILED"))
    ∷ []

-- `^(Inlet|Hotspot)\s+Temperature\s+Value:\s+(\d+)\s+Degree`
abbrev pub inlet_temperature : Pattern
inlet_temperature =
    plain begin_text
    ∷ group (either (word "Inlet") (word "Hotspot"))
    ∷ blanks
    ∷ text "Temperature"
    ∷ blanks
    ∷ text "Value:"
    ∷ blanks
    ∷ number
    ∷ blanks
    ∷ text "Degree"
    ∷ []

-- `^(\S+)\s+\S+\s+\S+\s+(OK|FAILED)\s+Good`
abbrev pub supply_state : Pattern
supply_state =
    plain begin_text
    ∷ token
    ∷ blanks
    ∷ solids
    ∷ blanks
    ∷ solids
    ∷ blanks
    ∷ group (either (word "OK") (word "FAILED"))
    ∷ blanks
    ∷ text "Good"
    ∷ []
