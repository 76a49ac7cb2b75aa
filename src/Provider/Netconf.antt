-- ===== src/Provider/Netconf.antt =====
-- internal/provider/netconf/netconf.go: the provider, as the scheduler calls it. `session` is what the session
-- of a device does at an instant.
pub mod Session
pub mod Methods
pub mod Replies
use gcisco_exporter.Base.{ℕ}
use gcisco_exporter.Strings.{Chars}
use gcisco_exporter.Float.{Float64}
use gcisco_exporter.Config.{Device, Credential}
use gcisco_exporter.Provider.Basic.{BasicProvider}
use gcisco_exporter.Provider.Netconf.Session.{Exchange}
use gcisco_exporter.Provider.Netconf.Methods.{
  Xml, netconf_system, netconf_interfaces, netconf_resources, netconf_processes,
}

unfoldable pub netconf_provider :
    {F : Type 0}
    → ⦃fl : Float64 F⦄ → Xml
    → (ℕ → Device → Credential → Chars → Exchange)
    → BasicProvider F
netconf_provider xml session = record {
  collect_system = λ t d cred. netconf_system xml (session t d cred);
  collect_resources = λ t d cred. netconf_resources xml (session t d cred);
  collect_processes = λ t d cred limit. netconf_processes xml (session t d cred) limit;
  collect_interfaces = λ t d cred. netconf_interfaces xml (session t d cred);
}
