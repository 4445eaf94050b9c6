-- ===== src/WebServer/Behavior.antt =====
-- src/webserver/WebAppBehavior.cpp: the part of the history that a new client is sent, up to the JSON
-- of a library.
use iotic.Prelude.{◌≤◌, List, [], ◌∷◌, reverse, length, leb, arith, if◌then◌else◌}
use iotic.Strategies.Strategy.{SiteProperties}

-- The loop from the newest entry, each of which is put in front.
unfoldable pub collect : List SiteProperties → List SiteProperties → List SiteProperties
collect [] entries = entries
collect (e ∷ l) entries =
    let rest = collect l (e ∷ entries) in if leb (length entries) 120 then rest else entries

-- The entries whose time and powers are sent.
unfoldable pub recent_history : List SiteProperties → List SiteProperties
recent_history history = collect (reverse history) []

length-collect :
    (l entries : List SiteProperties) → length entries ≤ 121 → length (collect l entries) ≤ 121
unfolding collect
length-collect [] entries h = h
length-collect (e ∷ l) entries h = ground (arith, length-collect l (e ∷ entries))

-- A new client is sent at most 121 entries.
pub length-recent_history : (history : List SiteProperties) → length (recent_history history) ≤ 121
unfolding recent_history
length-recent_history history = length-collect (reverse history) [] (omega arith)
