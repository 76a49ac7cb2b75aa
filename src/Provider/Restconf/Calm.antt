-- ===== src/Provider/Restconf/Calm.antt =====
-- internal/provider/restconf/restconf.go: no method panics, and how many processes one returns.
use gcisco_exporter.Base.{◌≢◌, String, Option, none, some, List, ◌⊎◌}
use gcisco_exporter.Int.{ℤ}
use gcisco_exporter.Error.{Error, panics}
use gcisco_exporter.Float.{Float64}
use gcisco_exporter.Provider.Json.Value.{Json, Fields}
use gcisco_exporter.Provider.Json.Shaped.{returns-calm, answered-calm}
use gcisco_exporter.Provider.Restconf.Request.{Http, list_at}
use gcisco_exporter.Provider.Restconf.Methods.{
  system_from, collect_system, interface_list, interfaces_from, collect_interfaces,
  collect_resources, processes_from, collect_processes,
}

module _ {F : Type 0} ⦃fl : Float64 F⦄ (http : Http F) (request : String → Error ⊎ Fields F) where
  system_from-calm : (o : Option (Fields F)) → system_from http request o ≢ panics
  unfolding system_from
  system_from-calm none = returns-calm _ _
  system_from-calm (some native) = returns-calm _ _

  interface_list-calm : (o : Option (List (Json F))) → interface_list http request o ≢ panics
  unfolding interface_list
  interface_list-calm none = returns-calm _ _
  interface_list-calm (some rows) = returns-calm _ _

  interfaces_from-calm : (o : Option (Fields F)) → interfaces_from http request o ≢ panics
  unfolding interfaces_from
  interfaces_from-calm none = returns-calm _ _
  interfaces_from-calm (some raw) = interface_list-calm (list_at "interface" raw)

  processes_from-calm :
      (limit : ℤ) (o : Option (Fields F)) → processes_from http request limit o ≢ panics
  unfolding processes_from
  processes_from-calm limit none = returns-calm _ _
  processes_from-calm limit (some cpu) = returns-calm _ _

  pub collect_system-calm : collect_system http request ≢ panics
  unfolding collect_system
  collect_system-calm = answered-calm _ _ _ (λ e. returns-calm _ _) (λ result e. system_from-calm _)

  pub collect_interfaces-calm : collect_interfaces http request ≢ panics
  unfolding collect_interfaces
  collect_interfaces-calm =
      answered-calm _ _ _ (λ e. returns-calm _ _) (λ result e. interfaces_from-calm _)

  pub collect_resources-calm : collect_resources http request ≢ panics
  unfolding collect_resources
  collect_resources-calm = returns-calm _ _

  pub collect_processes-calm : (limit : ℤ) → collect_processes http request limit ≢ panics
  unfolding collect_processes
  collect_processes-calm limit =
      answered-calm _ _ _ (λ e. returns-calm _ _) (λ result e. processes_from-calm limit _)
