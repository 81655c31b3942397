-- ===== src/Network.antt =====
-- dispatcher/network_control.py: the containers and networks of a submission. Docker is a list of
-- replies: each call of its client takes the next one, and is recorded with it.
use sandbox_2025team.CaseNo.{digits}
use sandbox_2025team.Meta.{Sidecar}
use sandbox_2025team.Dict.{Dict}
pub mod Topology
pub mod Provision
pub mod Calls
pub mod Started
pub mod Recorded
pub mod Complete
pub mod Removed
use sandbox_2025team.Base.Text.{Text, codes, one_of, text_eq}
use sandbox_2025team.Base.{
  ℕ, Option, none, List, Bool, some, drop, if◌then◌else◌, is_empty, ◌++◌, [], ◌∷◌, not, ◌||◌, ◌==◌,
  any, ◌+◌,
}

-- `external`, with an empty list for rules that are not there.
pub record External : Type 0 where
  pub ip : List Text
  pub url : List Text
  pub model : Option Text

-- The JSON that is copied into the router.
pub record RouterConfig : Type 0 where
  pub external : External
  pub sidecar_whitelist : Option (List Text)
  pub internal_names : Option (List Text)

-- The calls of the client; `wait` is _wait_for_containers_running, which only looks at containers.
pub data Call : Type 0 where
  create_network : (name : Text) (internal : Bool) → Call
  remove_network : Text → Call
  create_container : (name image network : Text) → Call
  put_archive : (container : Text) → RouterConfig → Call
  start stop remove_container inspect_container inspect_image pull : Text → Call
  connect_container disconnect_container : (container network : Text) → Call
  wait : List Text → Call

-- What a call returns, an id for example, or that it raises ImageNotFound or another exception.
pub data Reply : Type 0 where
  returns : Text → Reply
  image_not_found raises : Reply

-- The dict `resource_record`.
pub record Resource : Type 0 where
  pub net_ids : List Text
  pub container_ids : List Text
  pub router_id : Option Text
  pub mode : Text

-- The controller, with the resource_record that is being filled, and the calls so far, the oldest
-- first.
pub record Controller : Type 0 where
  pub resources : Dict Resource
  pub resource_record : Resource
  pub replies : List Reply
  pub calls : List (Call × Reply)

-- `none` is an exception.
abbrev pub Docker : Type 0 → Type 0
Docker A = Controller → Option A × Controller

unfoldable pub next_reply : List Reply → Reply
next_reply [] = raises
next_reply (r ∷ rs) = r

unfoldable pub record_call : Call → Controller → Controller
record_call call s = record s {
  replies = drop 1 s.replies;
  calls = s.calls ++ (call, next_reply s.replies) ∷ [];
}

infixl 5 ◌>>=◌
unfoldable pub ◌>>=◌ : {A B : Type 0} → Docker A → (A → Docker B) → Docker B
m >>= f = λ s. elim (m s).0 [ none ↦ (none, (m s).1) | some a ↦ f a (m s).1 ]

abbrev pub done : {A : Type 0} → A → Docker A
done a = λ s. (some a, s)

unfoldable pub ask : Call → Docker Text
ask call = λ s. (
  elim (next_reply s.replies) [ returns t ↦ some t | image_not_found ↦ none | raises ↦ none ],
  record_call call s,
)

-- A call in a `try` that ignores its exceptions.
unfoldable pub try_call : Call → Controller → Controller
try_call call s = record_call call s

unfoldable pub try_calls : List Call → Controller → Controller
try_calls [] s = s
try_calls (call ∷ calls) s = try_calls calls (try_call call s)

abbrev pub set_record : (Resource → Resource) → Docker (Unit {0})
set_record f = λ s. (some tt, record s { resource_record = f s.resource_record })

-- The parts of an image's name between the slashes.
unfoldable pub split_slash : (part : Text) → Text → List Text
split_slash part [] = part ∷ []
split_slash part (c ∷ s) =
    let further = split_slash [] s in
    let longer = split_slash (part ++ c ∷ []) s in if c == 47 then part ∷ further else longer

unfoldable pub registry_of : Text → Text
registry_of image = elim (split_slash [] image) [
  | [] ↦ codes "docker.io"
  | first ∷ rest ↦ elim rest [
    | [] ↦ codes "docker.io"
    | second ∷ more ↦
        if not (is_empty more)
          || (any (λ c. c == 46 || c == 58) first || text_eq first (codes "localhost"))
        then first
        else codes "docker.io"
  ]
]

unfoldable pub validate_image_registry : (allowed_registries : List Text) → Text → Bool
validate_image_registry allowed_registries image =
    is_empty allowed_registries || one_of (registry_of image) allowed_registries

-- `inspect_image`, and `pull` for an image that is not there.
unfoldable pub ensure_image : Text → Docker (Unit {0})
ensure_image image = λ s.
    let after = record_call (inspect_image image) s in
    elim (next_reply s.replies) [
      | returns t ↦ (some tt, after)
      | image_not_found ↦ (ask (pull image) >>= (λ t. done tt)) after
      | raises ↦ (none, after)
    ]

abbrev pub require : Bool → Docker (Unit {0})
require b = λ s. (if b then some tt else none, s)

-- A container that is created and started, with what is done in between.
unfoldable pub create_and_start : Call → (Text → Docker (Unit {0})) → Docker Text
create_and_start call between = do
  container ← ask call
  _ ← between container
  _ ← ask (start container)
  done container

unfoldable pub start_sidecars :
    (allowed_registries : List Text)
    → Text
    → ℕ
    → List Sidecar
    → (net_name : Text) → Docker (List Text)
start_sidecars allowed sid i [] net_name = done []
start_sidecars allowed sid i (sc ∷ configs) net_name = do
  _ ← require (validate_image_registry allowed sc.image)
  _ ← ensure_image sc.image
  container ←
      create_and_start
        (create_container (codes "sidecar-" ++ (sid ++ (codes "-" ++ digits i))) sc.image net_name)
        (λ c. done tt)
  ids ← start_sidecars allowed sid (i + 1) configs net_name
  done (container ∷ ids)

unfoldable pub start_custom_envs : Text → Dict Text → (net_name : Text) → Docker (List Text)
start_custom_envs sid [] net_name = done []
start_custom_envs sid ((alias, image) ∷ images) net_name = do
  container ←
      create_and_start
        (create_container (codes "custom-" ++ (alias ++ (codes "-" ++ sid))) image net_name)
        (λ c. done tt)
  ids ← start_custom_envs sid images net_name
  done (container ∷ ids)

unfoldable pub start_router : Text → RouterConfig → Docker Text
start_router sid config =
    create_and_start
      (create_container (codes "router-" ++ sid) (codes "noj-router") (codes "bridge"))
      (λ c. ask (put_archive c config) >>= (λ t. done tt))

-- The addresses of containers; one that cannot be inspected, or has none, is left out.
unfoldable pub addresses : List Text → Docker (List Text)
addresses [] = done []
addresses (c ∷ ids) = λ s.
    let rest = addresses ids (record_call (inspect_container c) s) in
    elim (next_reply s.replies) [
      | returns ip ↦
          if is_empty ip
          then rest
          else (elim rest.0 [ none ↦ none | some ips ↦ some (ip ∷ ips) ], rest.1)
      | image_not_found ↦ rest
      | raises ↦ rest
    ]

-- _wait_for_containers_running returns at once without containers.
abbrev pub wait_for : List Text → Docker (Unit {0})
wait_for [] = done tt
wait_for (c ∷ ids) = ask (wait (c ∷ ids)) >>= (λ t. done tt)
