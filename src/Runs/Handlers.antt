-- ===== src/Runs/Handlers.antt =====
-- Runs of src/coap/CoapDiscovery.cpp, src/webserver/WebAppRouter.cpp and src/stats/StatsDaily.cpp.
use Prim.Native.String.{String}
use iotic.Prelude.{
  negsuc, to_u32, to_i32, arith, ◌-ℤ◌, ℤ, ◌+ℤ◌, ◌*ℤ◌, ◌≡◌, refl, pos, none, some, List, [], ◌∷◌,
  get_or, quot,
}
use iotic.Coap.CoreLink.{codes}
use iotic.Coap.Message
use iotic.Coap.Message.{CoapMessage, empty_message}
use iotic.Coap.Discovery.{on_udp_data, discover}
use iotic.WebServer.SiteHistory.{Reply}
use iotic.WebServer.Router.{on_binary_message}
use iotic.Rules.SymbolRepository.{find_symbol}
use iotic.Stats.StatsDaily
use iotic.Stats.StatsDaily.{ThingStats, on_dc_power}
use iotic.Stats.StatsDaily.Energy.{Readings, run, energy, energies_of_day}

-- The request that is sent is published when it is received.
discover_received :
    on_udp_data (record discover { ip = "10.0.0.9"; port = 40000 })
    ≡ some (record empty_message {
      code = 1;
      options_map = (11, codes ".well-known") ∷ (11, codes "core") ∷ [];
      sender_address = "10.0.0.9";
      sender_port = 40000;
    })
unfolding on_udp_data discover Message.decode Message.encode Message.build_discovery_request
    Message.encode_options Message.encode_option Message.encode_extended Message.encode_payload
    Message.decode_options Message.extended Message.emplace
discover_received = refl

on_binary_message_unknown : on_binary_message [] (("lamp", []) ∷ []) ≡ Reply.nothing
unfolding on_binary_message
on_binary_message_unknown = refl

-- An inverter that publishes a second input later in the day makes the handler write outside.
on_dc_power_fault :
    on_dc_power "pv" 90000 (pos 5 ∷ pos 7 ∷ []) (
      ("pv", record { current_day = 1; timestamp = pos 89940; energy_delivered = pos 0 ∷ [] }) ∷ [])
    ≡ none
unfolding on_dc_power StatsDaily.add_energy StatsDaily.roll_day find_symbol
on_dc_power_fault = refl

abbrev noon : Readings
noon = (90060, pos 6 ∷ pos 7 ∷ []) ∷ (90120, pos 8 ∷ pos 9 ∷ []) ∷ []

energies_of_day_example :
    (table : List (String × ThingStats)) × (last : List ℤ) × (run "pv"
        ((90000, pos 5 ∷ pos 7 ∷ []) ∷ noon)
        ([], [])
      ≡ some (table, last))
    × ((stats : ThingStats) × (find_symbol "pv" table ≡ some stats)
        × (get_or stats.energy_delivered 1 (pos 0) ≡ to_i32 (energy 1 90000 noon)))
    × (get_or last 1 (pos 0) ≡ quot (to_i32 (energy 1 90000 noon)) 60000)
unfolding find_symbol
energies_of_day_example =
    energies_of_day "pv" 90000 1 (pos 5 ∷ pos 7 ∷ []) noon [] [] refl (omega arith)
      ((refl, refl), ((refl, refl), tt))

-- The second input after two minutes.
energy_run : energy 1 90000 noon ≡ pos 960
unfolding ◌+ℤ◌ ◌*ℤ◌ ◌-ℤ◌
energy_run = refl

-- An energy of 2 ^ 31 watt seconds is stored as a negative one.
add_energy_wraps :
    StatsDaily.add_energy (pos 1) (pos 1 ∷ []) (pos 2147483647 ∷ []) ≡ some (negsuc 2147483647 ∷ [])
unfolding StatsDaily.add_energy to_i32 to_u32 ◌+ℤ◌ ◌*ℤ◌
add_energy_wraps = refl
