-- ===== src/Tests/Network.antt =====
-- Networks with given replies of Docker.
use sandbox_2025team.Checker.{starts_with}
use sandbox_2025team.Network.Provision.{is_stale, contains_text, clean_name, container_patterns}
use sandbox_2025team.Network.Removed.{asked, removes_container, removes_network, cleanup-removes}
use sandbox_2025team.Dict.{insert, lookup}
use sandbox_2025team.Network.Calls.{made_ids, is_create_container, is_create_network}
use sandbox_2025team.CaseNo.{digits}
use sandbox_2025team.Base.Text.{codes, Text, one_of, text_eq}
use sandbox_2025team.Tests.Data.{sid}
use sandbox_2025team.Meta.{Sidecar}
use sandbox_2025team.Network.Topology.{
  Topology, setup_topology, set_up_body, clear_network, need_router, new_record, need_internal,
  set_up_containers, set_up_mixed, set_up_internal, is_internal, internal_names, clean_up,
  remove_networks, remove_with_retry, get_network_mode, cleanup,
}
use sandbox_2025team.Base.{List, none, ◌∷◌, [], map, some, ◌≡◌, true, refl, false}
use sandbox_2025team.Network.{
  Controller, Reply, raises, returns, try_call, record_call, next_reply, ◌>>=◌, ask, start_sidecars,
  start_custom_envs, ensure_image, validate_image_registry, registry_of, split_slash,
  create_and_start, addresses, start_router, try_calls,
}

abbrev database : Sidecar
database = record { image = codes "mysql:8.0"; name = codes "db"; env = []; args = [] }

abbrev cache : Sidecar
cache = record { image = codes "redis"; name = codes "cache"; env = []; args = [] }

abbrev topology : Topology
topology = record {
  allowed_registries = codes "docker.io" ∷ [];
  external = some (record { ip = codes "10.0.0.1" ∷ []; url = []; model = none });
  sidecars = database ∷ [];
  images = (codes "web", codes "noj-custom-env:1-web") ∷ [];
}

abbrev answers : List Text → List Reply
answers = map returns

-- A controller that gets these replies.
abbrev idle : List Reply → Controller
idle replies = record {
  resources = [];
  resource_record = new_record;
  replies = replies;
  calls = [];
}

-- No old network; then the network, the sidecar, the custom environment, the addresses, the router.
abbrev replies : List Reply
replies =
    raises
    ∷ answers (
        codes "n1"
        ∷ []
        ∷ codes "c1"
        ∷ []
        ∷ codes "c2"
        ∷ []
        ∷ []
        ∷ codes "172.18.0.2"
        ∷ codes "172.18.0.3"
        ∷ codes "r1"
        ∷ []
        ∷ []
        ∷ []
        ∷ []
        ∷ [])

abbrev set_up : Controller
set_up = (setup_topology sid topology (idle replies)).1

get_network_mode_runs : get_network_mode sid set_up ≡ codes "container:r1"
unfolding setup_topology set_up_body clear_network need_router need_internal try_call record_call
    next_reply set_up_containers set_up_mixed set_up_internal is_internal ◌>>=◌ ask start_sidecars
    start_custom_envs ensure_image validate_image_registry registry_of split_slash one_of text_eq
    digits create_and_start addresses start_router internal_names clean_up try_calls remove_networks
    remove_with_retry made_ids is_create_container is_create_network insert lookup get_network_mode
get_network_mode_runs = refl

cleanup-removes_example :
    ((c : Text)
      → one_of c (made_ids is_create_container set_up.calls) ≡ true
      → asked (removes_container c) (cleanup sid set_up) ≡ true)
    × ((n : Text)
        → one_of n (made_ids is_create_network set_up.calls) ≡ true
        → asked (removes_network n) (cleanup sid set_up) ≡ true)
unfolding setup_topology set_up_body clear_network need_router need_internal try_call record_call
    next_reply set_up_containers set_up_mixed set_up_internal is_internal ◌>>=◌ ask start_sidecars
    start_custom_envs ensure_image validate_image_registry registry_of split_slash one_of text_eq
    digits create_and_start addresses start_router internal_names clean_up try_calls remove_networks
    remove_with_retry made_ids is_create_container is_create_network insert lookup get_network_mode
cleanup-removes_example = cleanup-removes sid topology (idle replies) tt set_up refl refl

-- The second sidecar cannot be created: the first one was, and its removal is not asked for.
abbrev given_up : Controller
given_up =
    (setup_topology sid
      (record topology { external = none; sidecars = database ∷ cache ∷ []; images = [] })
      (idle (raises ∷ answers (codes "n1" ∷ [] ∷ codes "c1" ∷ [] ∷ [] ∷ [])))).1

given_up_leaks :
    (made_ids is_create_container given_up.calls ≡ codes "c1" ∷ [])
    × (asked (removes_container (codes "c1")) given_up ≡ false)
unfolding setup_topology set_up_body clear_network need_router need_internal try_call record_call
    next_reply set_up_containers set_up_mixed set_up_internal is_internal ◌>>=◌ ask start_sidecars
    start_custom_envs ensure_image validate_image_registry registry_of split_slash one_of text_eq
    digits create_and_start addresses start_router internal_names clean_up try_calls remove_networks
    remove_with_retry made_ids is_create_container is_create_network insert lookup get_network_mode
given_up_leaks = (refl, refl)

-- A custom environment that was left over keeps its name: no pattern is in it.
is_stale_custom : is_stale sid (codes "/custom-web-s1") ≡ false
unfolding is_stale contains_text clean_name container_patterns starts_with
is_stale_custom = refl

is_stale_sidecar : is_stale sid (codes "/sidecar-s1-0") ≡ true
unfolding is_stale contains_text clean_name container_patterns starts_with
is_stale_sidecar = refl
