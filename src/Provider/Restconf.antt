-- ===== src/Provider/Restconf.antt =====
-- internal/provider/restconf/restconf.go: the provider, as the scheduler calls it.
pub mod Request
pub mod Methods
pub mod Calm
use gcisco_exporter.Float.{Float64}
use gcisco_exporter.Provider.Basic.{BasicProvider}
use gcisco_exporter.Provider.Restconf.Request.{Http, do_request}
use gcisco_exporter.Provider.Restconf.Methods.{
  collect_system, collect_resources, collect_processes, collect_interfaces,
}

unfoldable pub restconf_provider : {F : Type 0} → ⦃fl : Float64 F⦄ → Http F → BasicProvider F
restconf_provider http = record {
  collect_system = λ t d cred. collect_system http (do_request http t d cred);
  collect_resources = λ t d cred. collect_resources http (do_request http t d cred);
  collect_processes = λ t d cred limit. collect_processes http (do_request http t d cred) limit;
  collect_interfaces = λ t d cred. collect_interfaces http (do_request http t d cred);
}
