-- ===== src/Provider/Basic.antt =====
-- internal/provider/restconf/restconf.go and internal/provider/netconf/netconf.go: the two providers
-- declare the same data, and the scheduler calls the same four methods of each.
use gcisco_exporter.Base.{ℕ, String, Bool, List}
use gcisco_exporter.Int.{ℤ}
use gcisco_exporter.Error.{Answer}
use gcisco_exporter.Config.{Device, Credential}
use gcisco_exporter.Provider.Json.{SystemData, ProcessData}

module _ (F : Type 0) where
  pub record BasicInterface : Type 0 where
    pub name : String
    pub admin_up : Bool
    pub oper_up : Bool
    pub rx_bytes : F
    pub tx_bytes : F
    pub rx_errors : F
    pub tx_errors : F

  pub record BasicResources : Type 0 where
    pub cpu_usage : F
    pub mem_total : F
    pub mem_used : F
    pub mem_free : F

  pub record BasicProvider : Type 0 where
    pub collect_system : ℕ → Device → Credential → Answer (SystemData F)
    pub collect_resources : ℕ → Device → Credential → Answer BasicResources
    pub collect_processes : ℕ → Device → Credential → ℤ → Answer (List (ProcessData F))
    pub collect_interfaces : ℕ → Device → Credential → Answer (List BasicInterface)
