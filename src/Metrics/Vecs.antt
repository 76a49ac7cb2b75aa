-- ===== src/Metrics/Vecs.antt =====
-- internal/metrics/metrics.go: `NewCollector`, which creates the vectors and registers them.
mod Options
mod Device
mod Interface
mod Switching
mod Health
use Options.{Vecs}
use Device.{system_vecs, process_vecs, exporter_vecs}
use Interface.{interface_vecs, optic_vecs}
use Switching.{layer2_vecs, port_channel_vecs, layer3_vecs}
use Health.{hardware_vecs, maintenance_vecs, capacity_vecs}
use gcisco_exporter.Base.{
  String, Bool, true, false, Option, none, some, [], ◌∷◌, ◌++◌, ◌==◌, ◌&&◌, nat_eq, length,
  if◌then◌else◌,
}
use gcisco_exporter.Metrics.{Metric, index, Kind, gauge, counter, Desc, Op, set, add, Call}

-- The vectors in the order of `MustRegister`.
vecs : Vecs
unfolding system_vecs interface_vecs optic_vecs layer2_vecs port_channel_vecs layer3_vecs
    hardware_vecs maintenance_vecs capacity_vecs process_vecs exporter_vecs
vecs =
    system_vecs
    ++ (interface_vecs
        ++ (optic_vecs
            ++ (layer2_vecs
                ++ (port_channel_vecs
                    ++ (layer3_vecs
                        ++ (hardware_vecs
                            ++ (maintenance_vecs
                                ++ (capacity_vecs ++ (process_vecs ++ (exporter_vecs))))))))))

find_desc : Metric → Vecs → Option Desc
find_desc m [] = none
find_desc m ((n, d) ∷ vs) = if nat_eq (index m) (index n) then some d else find_desc m vs

unfoldable pub describe : Metric → Option Desc
unfolding index vecs find_desc
describe m = find_desc m vecs

find_name : String → Vecs → Option Metric
find_name n [] = none
find_name n ((m, d) ∷ vs) = if d.name == n then some m else find_name n vs

-- The vector that is registered under a name, the first if there are several.
unfoldable pub of_name : String → Option Metric
unfolding vecs find_name
of_name n = find_name n vecs

op_fits : {F : Type 0} → Kind → Op F → Bool
op_fits gauge (set v) = true
op_fits counter (add v) = true
op_fits _ _ = false

-- `WithLabelValues` panics unless it is given one value for each label name; the vector of a `Set` is
-- a gauge, and of an `Add` a counter.
unfoldable pub fits : {F : Type 0} → Call F → Bool
unfolding describe op_fits
fits c = elim (describe c.metric) [
  | none ↦ false
  | some d ↦ nat_eq (length d.label_names) (length c.labels) && op_fits d.kind c.op
]
