-- ===== src/Strategies/Description.antt =====
-- The descriptions of the strategies in src/strategies/MultiPhaseStrategy.cpp,
-- src/strategies/WallboxStrategy.cpp and src/rules/RuleActuationStrategy.cpp, as the members of a JSON
-- object.
use Prim.Native.String.{String}
use iotic.Prelude.{pos, Bool, Option, none, some, List, [], ◌∷◌, map}
use iotic.Strategies.MultiPhase.{MultiPhase}
use iotic.Strategies.RuleActuation.{RuleActuation}
use iotic.Strategies.Wallbox.{DoubleOps, Wallbox, ThingStatus, power_controlled}
use iotic.Things.ThingValue.{Json, scalar, array, boolean, integer, floating, text, opaque}

unfoldable pub multi_phase_json : MultiPhase → List (String × Json)
multi_phase_json s =
    ("thingId", scalar (text s.thing_id))
    ∷ ("type", scalar (text "ThreePhaseStrategy"))
    ∷ ("priority", scalar (integer s.priority))
    ∷ ("powerThresholds", array (map integer s.power_thresholds))
    ∷ []

-- A measured power is known by what it is cut to, like any number that is not an integer; the name of a
-- status is the enum library's.
unfoldable pub wallbox_json :
    (ThingStatus → String) → (ops : DoubleOps) → (s : Wallbox ops) → List (String × Json)
wallbox_json status_name ops s =
    ("thingId", scalar (text s.thing_id))
    ∷ ("type", scalar (text "WallboxStrategy"))
    ∷ ("priority", scalar (integer s.priority))
    ∷ ("phases", scalar (integer (pos s.phases)))
    ∷ ("nextPhases", scalar (integer (pos s.next_phases)))
    ∷ ("powerControlled", scalar (integer (power_controlled ops s)))
    ∷ ("powerMeasured", scalar (floating (ops.to_int s.power_measured)))
    ∷ ("powerOffset", scalar (integer s.power_offset))
    ∷ ("voltages", array (integer s.voltage_1 ∷ integer s.voltage_2 ∷ integer s.voltage_3 ∷ []))
    ∷ ("lastMeasurementTs", scalar (integer (pos s.last_measurement_ts)))
    ∷ ("onePhaseHysteresis", scalar (integer s.one_phase_hysteresis))
    ∷ ("threePhaseHysteresis", scalar (integer s.three_phase_hysteresis))
    ∷ ("status", scalar (text (status_name s.status)))
    ∷ []

-- An empty value is null.
abbrev state_json : Option Bool → Json
state_json none = scalar opaque
state_json (some b) = scalar (boolean b)

unfoldable pub rule_actuation_json :
    {Expression : Type 0} → RuleActuation Expression → List (String × Json)
rule_actuation_json s =
    ("thingId", scalar (text s.thing_id))
    ∷ ("type", scalar (text "RuleActuationStrategy"))
    ∷ ("priority", scalar (integer s.priority))
    ∷ ("state", state_json s.state)
    ∷ ("nextState", state_json s.next_state)
    ∷ []
