-- ===== src/Provider/Netconf/Methods.antt =====
-- internal/provider/netconf/netconf.go: the methods of the provider. `xml.Unmarshal` into the types of the methods,
-- and `fmt` on a process, are parameters.
use gcisco_exporter.Base.{
  zero, String, Option, none, some, List, [], map, ◌⊎◌, inl, inr, lookup, ◌==◌, if◌then◌else◌,
}
use gcisco_exporter.Int.{ℤ}
use gcisco_exporter.Error.{Error, wrapped, Answer, returns}
use gcisco_exporter.Strings.{Chars, chars}
use gcisco_exporter.Float.{Float64, value}
use gcisco_exporter.Provider.Json.{SystemData, ProcessData}
use gcisco_exporter.Provider.Json.System.{within_limit}
use gcisco_exporter.Provider.Basic.{BasicInterface, BasicResources}
use gcisco_exporter.Provider.Netconf.Session.{
  Exchange, Leaf, float, string, get_subtree, parse_xml_fields,
}

-- `xmlInterface`
pub record XmlInterface : Type 0 where
  pub name : String
  pub admin_status : String
  pub oper_status : String
  pub in_octets : String
  pub out_octets : String
  pub in_errors : String
  pub out_errors : String

-- `xmlProcess`
pub record XmlProcess : Type 0 where
  pub pid : String
  pub name : String
  pub five_sec : String
  pub total_run : String

pub record Xml : Type 0 where
  -- `xml.Unmarshal` of the interfaces and of the processes
  pub interfaces : Chars → Error ⊎ List XmlInterface
  pub processes : Chars → Error ⊎ List XmlProcess
  -- `fmt.Sprintf("%s(%d)", name, pid)`, where `pid` is `strconv.Atoi` of a text, zero for an error
  pub show_process : String → String → String

module _ {F : Type 0} ⦃fl : Float64 F⦄ where
  -- `if v, ok := m[key].(string); ok { x = v }`
  unfoldable pub string_leaf : String → Option (Leaf F) → String
  string_leaf held (some (string s)) = s
  string_leaf held other = held

  -- `if v, ok := m[key].(float64); ok { x = v }`
  unfoldable pub float_leaf : F → Option (Leaf F) → F
  float_leaf held (some (float f)) = f
  float_leaf held other = held

  -- `if v, err := strconv.ParseFloat(s, 64); err == nil { x = v }`
  unfoldable pub parsed : F → String → F
  parsed held s = let (f, is_number) = fl.parse (chars s) in if is_number then f else held

  unfoldable pub blank_system : SystemData F
  blank_system = record {
    hostname = "";
    version = "";
    model = "";
    serial = "";
    uptime = fl.of_nat zero;
  }

  unfoldable pub state_of : Chars → SystemData F
  state_of answer =
      let m = parse_xml_fields answer in
      record blank_system {
        hostname = string_leaf "" (lookup "system-name" m);
        version = string_leaf "" (lookup "software-version" m);
      }

  unfoldable pub answer_system : Error ⊎ Chars → Answer (SystemData F)
  answer_system (inl err) = returns blank_system (some err)
  answer_system (inr answer) = returns (state_of answer) none

  unfoldable pub xml_interface : XmlInterface → BasicInterface F
  xml_interface xi = record {
    name = xi.name;
    admin_up = xi.admin_status == "up";
    oper_up = xi.oper_status == "up";
    rx_bytes = parsed (fl.of_nat zero) xi.in_octets;
    tx_bytes = parsed (fl.of_nat zero) xi.out_octets;
    rx_errors = parsed (fl.of_nat zero) xi.in_errors;
    tx_errors = parsed (fl.of_nat zero) xi.out_errors;
  }

  unfoldable pub read_interfaces : Error ⊎ List XmlInterface → Answer (List (BasicInterface F))
  read_interfaces (inl err) = returns [] (some (wrapped "parse NETCONF interfaces" err))
  read_interfaces (inr found) = returns (map xml_interface found) none

  unfoldable pub answer_interfaces : Xml → Error ⊎ Chars → Answer (List (BasicInterface F))
  answer_interfaces xml (inl err) = returns [] (some err)
  answer_interfaces xml (inr answer) = read_interfaces (xml.interfaces answer)

  unfoldable pub add_cpu : Error ⊎ Chars → BasicResources F → BasicResources F
  add_cpu (inl err) res = res
  add_cpu (inr answer) res = record res {
    cpu_usage = float_leaf res.cpu_usage (lookup "five-seconds" (parse_xml_fields answer));
  }

  unfoldable pub add_memory : Error ⊎ Chars → BasicResources F → BasicResources F
  add_memory (inl err) res = res
  add_memory (inr answer) res =
      let m = parse_xml_fields answer in
      record res {
        mem_total = float_leaf res.mem_total (lookup "total-memory" m);
        mem_used = float_leaf res.mem_used (lookup "used-memory" m);
        mem_free = float_leaf res.mem_free (lookup "free-memory" m);
      }

  unfoldable pub xml_process : Xml → XmlProcess → ProcessData F
  xml_process xml xp = record {
    name = xml.show_process xp.name xp.pid;
    cpu = value (chars xp.five_sec);
    runtime = value (chars xp.total_run);
  }

  unfoldable pub read_processes : Xml → ℤ → Error ⊎ List XmlProcess → Answer (List (ProcessData F))
  read_processes xml limit (inl err) = returns [] (some (wrapped "parse NETCONF processes" err))
  read_processes xml limit (inr found) =
      returns (map (xml_process xml) (within_limit limit found)) none

  unfoldable pub answer_processes : Xml → ℤ → Error ⊎ Chars → Answer (List (ProcessData F))
  answer_processes xml limit (inl err) = returns [] (some err)
  answer_processes xml limit (inr answer) = read_processes xml limit (xml.processes answer)

module _ {F : Type 0} ⦃fl : Float64 F⦄ (xml : Xml) (exchange : Chars → Exchange) where
  unfoldable pub netconf_system : Answer (SystemData F)
  netconf_system =
      answer_system
        (get_subtree exchange "<system-state xmlns=\"urn:ietf:params:xml:ns:yang:ietf-system\"/>")

  unfoldable pub netconf_interfaces : Answer (List (BasicInterface F))
  netconf_interfaces = answer_interfaces xml (
      get_subtree exchange
        "<interfaces-state xmlns=\"urn:ietf:params:xml:ns:yang:ietf-interfaces\"/>")

  unfoldable pub netconf_resources : Answer (BasicResources F)
  netconf_resources =
      let res : BasicResources F = record {
        cpu_usage = fl.of_nat zero;
        mem_total = fl.of_nat zero;
        mem_used = fl.of_nat zero;
        mem_free = fl.of_nat zero;
      } in
      let cpu =
        get_subtree exchange
          "<cpu-usage xmlns=\"http://cisco.com/ns/yang/Cisco-IOS-XE-process-cpu-oper\"/>" in
      let memory =
        get_subtree exchange
          "<memory-statistics xmlns=\"http://cisco.com/ns/yang/Cisco-IOS-XE-memory-oper\"/>" in
      returns (add_memory memory (add_cpu cpu res)) none

  unfoldable pub netconf_processes : ℤ → Answer (List (ProcessData F))
  netconf_processes limit = answer_processes xml limit (
      get_subtree exchange
        "<cpu-usage xmlns=\"http://cisco.com/ns/yang/Cisco-IOS-XE-process-cpu-oper\"/>")
