-- ===== src/Provider/Netconf/Replies.antt =====
-- internal/provider/netconf/netconf.go: what `execRPC` reads of a session, and that no method panics.
use gcisco_exporter.Base.{
  ◌≡◌, ◌≢◌, refl, ap, ◌∙◌, sym, true, false, List, [], ◌∷◌, ◌++◌, append_assoc, All, ◌⊎◌, inl, inr,
}
use gcisco_exporter.Int.{ℤ}
use gcisco_exporter.Error.{Error, panics}
use gcisco_exporter.Strings.{Chars, chars, contains}
use gcisco_exporter.Float.{Float64}
use gcisco_exporter.Provider.Json.Shaped.{returns-calm}
use gcisco_exporter.Provider.Netconf.Session.{
  Exchange, written, read_lines, trimmed, trim_end_mark, reply_of, exec_rpc,
}
use gcisco_exporter.Provider.Netconf.Methods.{
  Xml, XmlInterface, XmlProcess, answer_system, read_interfaces, answer_interfaces, read_processes,
  answer_processes, netconf_system, netconf_interfaces, netconf_resources, netconf_processes,
}

-- a line without the mark that ends a message
abbrev pub NoMark : Chars → Type 0
NoMark line = contains line "]]>]]>" ≡ false

-- all lines in one text
unfoldable pub joined : List Chars → Chars
joined [] = []
joined (line ∷ lines) = line ++ joined lines

read_lines-mark :
    (output : Chars) (before : List Chars) (line : Chars) (after : List Chars) (err : Error)
    → All NoMark before
    → contains line "]]>]]>" ≡ true
    → read_lines output (before ++ line ∷ after) err ≡ inr (output ++ (joined before ++ line))
unfolding read_lines joined
read_lines-mark output [] line after err h m = rw m refl
read_lines-mark output (first ∷ before) line after err h m = rw (h.0) (
    read_lines-mark (output ++ first) before line after err (h.1) m
    ∙ ap inr (
        append_assoc output first (joined before ++ line)
        ∙ ap (λ t. output ++ t) (sym (append_assoc first (joined before) line))))

-- Where the session answers a message with lines of which one has the mark, `execRPC` returns the text up to
-- and with the first such line, less the mark if the text ends in it, and reads no further.
pub exec_rpc-mark :
    (exchange : Chars → Exchange) (rpc : Chars) (before : List Chars) (line : Chars)
    (after : List Chars) (err : Error)
    → exchange (rpc ++ chars "]]>]]>") ≡ written (before ++ line ∷ after) err
    → All NoMark before
    → contains line "]]>]]>" ≡ true
    → exec_rpc exchange rpc ≡ inr (trim_end_mark (joined before ++ line))
unfolding exec_rpc reply_of trimmed
exec_rpc-mark exchange rpc before line after err answered h m =
    ap reply_of answered ∙ ap trimmed (read_lines-mark [] before line after err h m)

module _ {F : Type 0} ⦃fl : Float64 F⦄ where
  answer_system-calm : (r : Error ⊎ Chars) → answer_system {F = F} r ≢ panics
  unfolding answer_system
  answer_system-calm (inl err) = returns-calm _ _
  answer_system-calm (inr answer) = returns-calm _ _

  read_interfaces-calm : (r : Error ⊎ List XmlInterface) → read_interfaces {F = F} r ≢ panics
  unfolding read_interfaces
  read_interfaces-calm (inl err) = returns-calm _ _
  read_interfaces-calm (inr found) = returns-calm _ _

  answer_interfaces-calm :
      (xml : Xml) (r : Error ⊎ Chars) → answer_interfaces {F = F} xml r ≢ panics
  unfolding answer_interfaces
  answer_interfaces-calm xml (inl err) = returns-calm _ _
  answer_interfaces-calm xml (inr answer) = read_interfaces-calm (xml.interfaces answer)

  read_processes-calm :
      (xml : Xml) (limit : ℤ) (r : Error ⊎ List XmlProcess)
      → read_processes {F = F} xml limit r ≢ panics
  unfolding read_processes
  read_processes-calm xml limit (inl err) = returns-calm _ _
  read_processes-calm xml limit (inr found) = returns-calm _ _

  answer_processes-calm :
      (xml : Xml) (limit : ℤ) (r : Error ⊎ Chars) → answer_processes {F = F} xml limit r ≢ panics
  unfolding answer_processes
  answer_processes-calm xml limit (inl err) = returns-calm _ _
  answer_processes-calm xml limit (inr answer) =
      read_processes-calm xml limit (xml.processes answer)

module _ (F : Type 0) ⦃fl : Float64 F⦄ (xml : Xml) (exchange : Chars → Exchange) where
  pub netconf_system-calm : netconf_system {F = F} xml exchange ≢ panics
  unfolding netconf_system
  netconf_system-calm = answer_system-calm _

  pub netconf_interfaces-calm : netconf_interfaces {F = F} xml exchange ≢ panics
  unfolding netconf_interfaces
  netconf_interfaces-calm = answer_interfaces-calm xml _

  pub netconf_resources-calm : netconf_resources {F = F} xml exchange ≢ panics
  unfolding netconf_resources
  netconf_resources-calm = returns-calm _ _

  pub netconf_processes-calm : (limit : ℤ) → netconf_processes {F = F} xml exchange limit ≢ panics
  unfolding netconf_processes
  netconf_processes-calm limit = answer_processes-calm xml limit _
