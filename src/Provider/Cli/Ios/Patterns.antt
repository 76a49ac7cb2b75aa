-- ===== src/Provider/Cli/Ios/Patterns.antt =====
-- internal/provider/ssh/parser_ios_classic.go: the regular expressions, each under its text in the source.
use gcisco_exporter.Base.{[], ◌∷◌, nat_eq}
use gcisco_exporter.Regexp.{
  Pattern, is_any, in_set, word, one, few, either, maybe, boundary, plain, group,
}
use gcisco_exporter.Provider.Cli.Patterns.{number, token, blanks, spaces, text}

-- `[Ss]erial\s+[Nn]umber\s*:\s*(\S+)`
abbrev pub serial_line : Pattern
serial_line =
    plain (one (in_set (b'S' ∷ b's' ∷ [])))
    ∷ text "erial"
    ∷ blanks
    ∷ plain (one (in_set (b'N' ∷ b'n' ∷ [])))
    ∷ text "umber"
    ∷ spaces
    ∷ text ":"
    ∷ spaces
    ∷ token
    ∷ []

-- `five\s+seconds:\s*(\d+)%`
abbrev pub five_seconds : Pattern
five_seconds = text "five" ∷ blanks ∷ text "seconds:" ∷ spaces ∷ number ∷ text "%" ∷ []

-- `one\s+minute:\s*(\d+)%`
abbrev pub one_minute : Pattern
one_minute = text "one" ∷ blanks ∷ text "minute:" ∷ spaces ∷ number ∷ text "%" ∷ []

-- `five\s+minutes:\s*(\d+)%`
abbrev pub five_minutes : Pattern
five_minutes = text "five" ∷ blanks ∷ text "minutes:" ∷ spaces ∷ number ∷ text "%" ∷ []

-- `CPU\s+utilization.*?(\d+)%.*?(\d+)%.*?(\d+)%`
abbrev pub cpu_percentages : Pattern
cpu_percentages =
    text "CPU"
    ∷ blanks
    ∷ text "utilization"
    ∷ plain (few is_any)
    ∷ number
    ∷ text "%"
    ∷ plain (few is_any)
    ∷ number
    ∷ text "%"
    ∷ plain (few is_any)
    ∷ number
    ∷ text "%"
    ∷ []

-- `\b(\d+)\s+output\s+drops\b`
abbrev pub output_drops : Pattern
output_drops =
    plain boundary ∷ number ∷ blanks ∷ text "output" ∷ blanks ∷ text "drops" ∷ plain boundary ∷ []

-- `(\d+)\s*(year|week|day|hour|minute|second|yr|wk|hr|min|sec)s?`
abbrev pub short_uptime : Pattern
short_uptime =
    number
    ∷ spaces
    ∷ group (
        either (word "year") (
          either (word "week") (
            either (word "day") (
              either (word "hour") (
                either (word "minute") (
                  either (word "second") (
                    either (word "yr") (
                      either (word "wk")
                        (either (word "hr") (either (word "min") (word "sec")))))))))))
    ∷ plain (maybe (one (nat_eq b's')))
    ∷ []

-- `(\d+)\s+(?:entries|lines)`
abbrev pub entries_or_lines : Pattern
entries_or_lines = number ∷ blanks ∷ plain (either (word "entries") (word "lines")) ∷ []

-- `(\d+)\s+entries`
abbrev pub entries_only : Pattern
entries_only = number ∷ blanks ∷ text "entries" ∷ []
