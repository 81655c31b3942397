-- ===== src/Network/Topology.antt =====
-- dispatcher/network_control.py: _setup_topology, cleanup and get_network_mode.
use sandbox_2025team.Results.{or_default}
use sandbox_2025team.Meta.{Sidecar}
use sandbox_2025team.Dict.{insert, delete, lookup, keys, Dict}
use sandbox_2025team.Base.Text.{Text, codes, text_eq, lower_char}
use sandbox_2025team.Base.{
  Bool, ℕ, Option, List, some, keep, [], none, not, ◌++◌, map, suc, ◌∷◌, false, is_empty,
  if◌then◌else◌, ◌||◌, zero,
}
use sandbox_2025team.Network.{
  Docker, Resource, External, Call, Controller, ◌>>=◌, ask, start_router, wait_for, try_calls,
  disconnect_container, set_record, create_network, remove_network, stop, done, remove_container,
  try_call, start_sidecars, start_custom_envs, addresses, connect_container,
}

abbrev pub is_model : Text → Text → Bool
is_model model name = text_eq (map lower_char model) name

unfoldable pub need_router : Option External → Bool
need_router none = false
need_router (some e) =
    (not (is_empty e.ip) || not (is_empty e.url))
    || is_model (or_default (codes "White") e.model) (codes "black")

unfoldable pub is_internal : Option External → Bool
is_internal none = false
is_internal (some e) = is_model (or_default (codes "black") e.model) (codes "white")

abbrev pub net_name_of : Text → Text
net_name_of sid = codes "noj-net-" ++ sid

abbrev pub add_network : Text → Resource → Resource
add_network net_id r = record r { net_ids = r.net_ids ++ net_id ∷ [] }

abbrev pub add_containers : List Text → Resource → Resource
add_containers ids r = record r { container_ids = r.container_ids ++ ids }

abbrev pub set_mode : Text → Resource → Resource
set_mode mode r = record r { mode = mode }

abbrev pub set_router : Text → Resource → Resource
set_router router r = record r { router_id = some router; mode = codes "container:" ++ router }

-- What a submission's network is made of. `external` is `none` for an empty configuration, and
-- `images` are the images of the problem's own environments, by their aliases.
pub record Topology : Type 0 where
  pub allowed_registries : List Text
  pub external : Option External
  pub sidecars : List Sidecar
  pub images : Dict Text

unfoldable pub internal_names : Topology → List Text
internal_names t = keep (λ n. not (is_empty n)) (map (λ sc. sc.name) t.sidecars) ++ keys t.images

-- A router next to other containers.
unfoldable pub set_up_mixed : Text → Topology → External → Docker (List Text)
set_up_mixed sid t external = do
  net_id ← ask (create_network (net_name_of sid) false)
  _ ← set_record (add_network net_id)
  sc_ids ← start_sidecars t.allowed_registries sid 0 t.sidecars (net_name_of sid)
  ce_ids ← start_custom_envs sid t.images (net_name_of sid)
  _ ← set_record (add_containers (sc_ids ++ ce_ids))
  _ ← wait_for (sc_ids ++ ce_ids)
  ips ← addresses (sc_ids ++ ce_ids)
  router ← start_router sid (record {
    external = external;
    sidecar_whitelist = some ips;
    internal_names = some (internal_names t);
  })
  _ ← ask (connect_container router net_id)
  _ ← set_record (set_router router)
  done (router ∷ [])

unfoldable pub set_up_router : Text → External → Docker (List Text)
set_up_router sid external = do
  router ←
      start_router sid
        (record { external = external; sidecar_whitelist = none; internal_names = none })
  _ ← set_record (set_router router)
  done (router ∷ [])

unfoldable pub set_up_internal : Text → Topology → Docker (List Text)
set_up_internal sid t = do
  net_id ← ask (create_network (net_name_of sid) (is_internal t.external))
  _ ← set_record (add_network net_id)
  sc_ids ← start_sidecars t.allowed_registries sid 0 t.sidecars (net_name_of sid)
  _ ← set_record (add_containers sc_ids)
  ce_ids ← start_custom_envs sid t.images (net_name_of sid)
  _ ← set_record (add_containers ce_ids)
  _ ← set_record (set_mode (net_name_of sid))
  done (sc_ids ++ ce_ids)

unfoldable pub need_internal : Topology → Bool
need_internal t = not (is_empty t.sidecars) || not (is_empty t.images)

unfoldable pub set_up_containers : Text → Topology → Docker (List Text)
set_up_containers sid t = elim t.external [
  | none ↦ if need_internal t then set_up_internal sid t else done []
  | some e ↦
      if need_router (some e)
      then if need_internal t then set_up_mixed sid t e else set_up_router sid e
      else if need_internal t
      then set_up_internal sid t
      else done []
]

-- The removal of an old network, whose exceptions are ignored.
unfoldable pub clear_network : Text → Topology → Docker (Unit {0})
clear_network sid t = λ s. (
  some tt,
  if need_router t.external || need_internal t
      then try_call (remove_network (net_name_of sid)) s
      else s,
)

-- The body of the `try`.
unfoldable pub set_up_body : Text → Topology → Docker (Unit {0})
set_up_body sid t = do
  _ ← clear_network sid t
  containers_to_wait ← set_up_containers sid t
  wait_for containers_to_wait

abbrev pub containers_of : Resource → List Text
containers_of r = r.container_ids ++ elim r.router_id [ none ↦ [] | some router ↦ router ∷ [] ]

abbrev pub disconnects : List Text → List Text → List Call
disconnects [] c_ids = []
disconnects (n ∷ net_ids) c_ids =
    map (λ c. disconnect_container c n) c_ids ++ disconnects net_ids c_ids

-- Up to `attempts` removals of a network, until one succeeds.
unfoldable pub remove_with_retry : (attempts : ℕ) → Text → Controller → Controller
remove_with_retry zero n s = s
remove_with_retry (suc attempts) n s =
    let (removed, after) = ask (remove_network n) s in
    elim removed [ none ↦ remove_with_retry attempts n after | some t ↦ after ]

unfoldable pub remove_networks : List Text → Controller → Controller
remove_networks [] s = s
remove_networks (n ∷ net_ids) s = remove_networks net_ids (remove_with_retry 3 n s)

-- Of the record `r`: every call is tried, whatever comes of those before.
unfoldable pub clean_up : Resource → Controller → Controller
clean_up r s =
    let c_ids = containers_of r in
    let disconnected = try_calls (disconnects r.net_ids c_ids) s in
    let stopped = try_calls (map stop c_ids) disconnected in
    remove_networks r.net_ids (try_calls (map remove_container c_ids) stopped)

abbrev pub new_record : Resource
new_record = record { net_ids = []; container_ids = []; router_id = none; mode = codes "none" }

unfoldable pub setup_topology : Text → Topology → Docker (Unit {0})
setup_topology sid t s =
    let (ran, after) = set_up_body sid t (record s { resource_record = new_record }) in
    elim ran [
      | none ↦ (none, clean_up after.resource_record after)
      | some u ↦
          (some tt, record after { resources = insert sid after.resource_record after.resources })
    ]

unfoldable pub cleanup : Text → Controller → Controller
cleanup sid s =
    let left = record s { resources = delete sid s.resources } in
    clean_up (or_default (record new_record { mode = [] }) (lookup sid s.resources)) left

unfoldable pub get_network_mode : Text → Controller → Text
get_network_mode sid s = elim (lookup sid s.resources) [ none ↦ codes "none" | some r ↦ r.mode ]
