-- ===== src/Network/Provision.antt =====
-- dispatcher/network_control.py: cleanup_stale_resources for a submission, and provision_network.
use sandbox_2025team.Checker.{starts_with}
use sandbox_2025team.Network.Topology.{Topology, net_name_of, setup_topology}
use sandbox_2025team.Base.{
  List, map, ◌∷◌, Option, [], Bool, if◌then◌else◌, ◌++◌, keep, is_empty, any, none, ◌==◌, some,
  ◌||◌,
}
use sandbox_2025team.Base.Text.{Text, codes}
use sandbox_2025team.Network.{
  Docker, Controller, Call, try_calls, stop, remove_network, remove_container,
}

-- `pattern in text`.
unfoldable pub contains_text : Text → Text → Bool
contains_text pattern [] = is_empty pattern
contains_text pattern (c ∷ s) = starts_with pattern (c ∷ s) || contains_text pattern s

-- `name.lstrip("/")`.
unfoldable pub clean_name : Text → Text
clean_name [] = []
clean_name (c ∷ s) = let rest = clean_name s in if c == 47 then rest else c ∷ s

unfoldable pub container_patterns : Text → List Text
container_patterns sid =
    (codes "router-" ++ sid)
    ∷ (codes "sidecar-" ++ (sid ++ codes "-"))
    ∷ (codes "custom-*-" ++ sid)
    ∷ []

-- A pattern that a name starts with is in it.
unfoldable pub is_stale : Text → Text → Bool
is_stale sid name = any (λ p. contains_text p (clean_name name)) (container_patterns sid)

-- A container is listed once for each of its names that is stale.
unfoldable pub stale_containers : Text → List (Text × List Text) → List Text
stale_containers sid [] = []
stale_containers sid ((c, names) ∷ containers) =
    map (λ n. c) (keep (is_stale sid) names) ++ stale_containers sid containers

unfoldable pub stale_networks : Text → List (Text × Text) → List Text
stale_networks sid networks =
    map (λ n. n.0) (keep (λ n. starts_with (net_name_of sid) n.1) networks)

abbrev pub removals : List Text → List Call
removals [] = []
removals (c ∷ ids) = stop c ∷ remove_container c ∷ removals ids

-- What Docker lists: containers with their names, and networks by id and name; no list for an
-- exception.
pub record Listing : Type 0 where
  pub containers : List (Text × List Text)
  pub networks : List (Text × Text)

unfoldable pub cleanup_stale_resources : Text → Listing → Controller → Controller
cleanup_stale_resources sid listing s =
    try_calls (map remove_network (stale_networks sid listing.networks))
      (try_calls (removals (stale_containers sid listing.containers)) s)

-- `configured` is the fetched configuration with the images that _ensure_docker_image returns, `none`
-- if one of the two raises.
unfoldable pub provision_network : Text → Listing → Option Topology → Docker (Unit {0})
provision_network sid listing configured s =
    let cleared = cleanup_stale_resources sid listing s in
    elim configured [ none ↦ (none, cleared) | some t ↦ setup_topology sid t cleared ]
