-- ===== src/Network/Complete.antt =====
-- All that a set-up has made is recorded, in each of its cases.
use sandbox_2025team.Network.Started.{wait_for-Adds, done-inv}
use sandbox_2025team.Dict.Laws.{lookup-insert_self}
use sandbox_2025team.Dict.{lookup, insert}
use sandbox_2025team.Network.Calls.{
  Adds, is_create_container, bind-elim, made_ids, is_create_network, record_call-plain, Adds-refl,
}
use sandbox_2025team.Network.Recorded.{
  IsRecorded, set_up_mixed-IsRecorded, set_up_internal-IsRecorded, set_up_router-IsRecorded,
}
use sandbox_2025team.Base.Text.{Text}
use sandbox_2025team.Base.{
  Option, ◌≡◌, none, [], List, some, ◌∙◌, Option-cases, ◌⊎◌, if◌then◌else◌, sym, append-nil, ap,
  inl, ◌++◌, subst, inr, Bool-cases, refl, ◌||◌, Bool,
}
use sandbox_2025team.Network.Topology.{
  set_up_containers, setup_topology, clear_network, set_up_body, Topology, new_record, clean_up,
  need_internal, containers_of, set_up_internal, set_up_mixed, set_up_router, need_router,
  net_name_of,
}
use sandbox_2025team.Network.{
  Docker, Controller, Resource, try_call, External, done, remove_network,
}

after-IsRecorded : (s t u : Controller) → Adds s t [] [] → IsRecorded t u → IsRecorded s u
after-IsRecorded s t u a r = record {
  containers =
      r.containers
      ∙ ap (λ xs. xs ++ containers_of u.resource_record)
          (a.containers ∙ append-nil (made_ids is_create_container s.calls));
  networks =
      r.networks
      ∙ ap (λ xs. xs ++ u.resource_record.net_ids)
          (a.networks ∙ append-nil (made_ids is_create_network s.calls));
}

IsRecorded-after : (s t u : Controller) → IsRecorded s t → Adds t u [] [] → IsRecorded s u
IsRecorded-after s t u r a = record {
  containers =
      a.containers
      ∙ (append-nil (made_ids is_create_container t.calls)
          ∙ (r.containers
              ∙ ap (λ (q : Resource). made_ids is_create_container s.calls ++ containers_of q)
                  (sym a.same)));
  networks =
      a.networks
      ∙ (append-nil (made_ids is_create_network t.calls)
          ∙ (r.networks
              ∙ ap (λ (q : Resource). made_ids is_create_network s.calls ++ q.net_ids)
                  (sym a.same)));
}

nothing-IsRecorded : (s : Controller) → s.resource_record ≡ new_record → IsRecorded s s
nothing-IsRecorded s fresh = record {
  containers =
      sym (append-nil (made_ids is_create_container s.calls))
      ∙ ap (λ (q : Resource). made_ids is_create_container s.calls ++ containers_of q) (sym fresh);
  networks =
      sym (append-nil (made_ids is_create_network s.calls))
      ∙ ap (λ (q : Resource). made_ids is_create_network s.calls ++ q.net_ids) (sym fresh);
}

internal-IsRecorded :
    (sid : Text) (topology : Topology) (s : Controller) (ids : List Text) (t : Controller)
    → s.resource_record ≡ new_record
    → (if need_internal topology then set_up_internal sid topology else done []) s ≡ (some ids, t)
    → IsRecorded s t
internal-IsRecorded sid topology s ids t fresh h = elim (Bool-cases (need_internal topology)) [
  | inl needed ↦ set_up_internal-IsRecorded sid topology s ids t fresh (
      subst (λ b. (if b then set_up_internal sid topology else done []) s ≡ (some ids, t)) needed h)
  | inr free ↦
      subst (IsRecorded s)
        (done-inv [] ids s t (
          subst (λ b. (if b then set_up_internal sid topology else done []) s ≡ (some ids, t)) free
            h)).1
        (nothing-IsRecorded s fresh)
]

external-IsRecorded :
    (sid : Text) (topology : Topology) (e : External) (s : Controller) (ids : List Text)
    (t : Controller)
    → s.resource_record ≡ new_record
    → (if need_internal topology then set_up_mixed sid topology e else set_up_router sid e) s
      ≡ (some ids, t)
    → IsRecorded s t
external-IsRecorded sid topology e s ids t fresh h =
    let family : Bool → Type 0 =
      λ b. (if b then set_up_mixed sid topology e else set_up_router sid e) s ≡ (some ids, t) in
    elim (Bool-cases (need_internal topology)) [
      | inl needed ↦ set_up_mixed-IsRecorded sid topology e s ids t fresh (subst family needed h)
      | inr free ↦ set_up_router-IsRecorded sid e s ids t fresh (subst family free h)
    ]

set_up_containers-IsRecorded :
    (sid : Text) (topology : Topology) (s : Controller) (ids : List Text) (t : Controller)
    → s.resource_record ≡ new_record
    → set_up_containers sid topology s ≡ (some ids, t)
    → IsRecorded s t
unfolding set_up_containers
set_up_containers-IsRecorded sid topology s ids t fresh h =
    let alone : Docker (List Text) =
      if need_internal topology then set_up_internal sid topology else done [] in
    let routed : External → Docker (List Text) =
      λ e. if need_internal topology then set_up_mixed sid topology e else set_up_router sid e in
    let chosen : Option External → Docker (List Text) =
      λ o. elim o [ none ↦ alone | some e ↦ if need_router (some e) then routed e else alone ] in
    let family : Option External → Type 0 = λ o. chosen o s ≡ (some ids, t) in
    elim (Option-cases topology.external) [
      | inl closed ↦ internal-IsRecorded sid topology s ids t fresh (subst family closed h)
      | inr (e, given) ↦
          let g = subst family given h in
          let choice : Bool → Type 0 = λ b. (if b then routed e else alone) s ≡ (some ids, t) in
          elim (Bool-cases (need_router (some e))) [
            | inl is_routed ↦
                external-IsRecorded sid topology e s ids t fresh (subst choice is_routed g)
            | inr is_direct ↦
                internal-IsRecorded sid topology s ids t fresh (subst choice is_direct g)
          ]
    ]

clear_network-Adds :
    (sid : Text) (topology : Topology) (s : Controller) (x : Unit {0}) (t : Controller)
    → clear_network sid topology s ≡ (some x, t)
    → Adds s t [] []
unfolding clear_network try_call is_create_container is_create_network
clear_network-Adds sid topology s x t h =
    subst (λ q. Adds s q [] []) (ap (λ q. q.1) h)
      (elim (Bool-cases (need_router topology.external || need_internal topology)) [
        | inl clear ↦ rw clear (record_call-plain (remove_network (net_name_of sid)) s refl refl)
        | inr leave ↦ rw leave (Adds-refl s)
      ])

set_up_body-IsRecorded :
    (sid : Text) (topology : Topology) (s : Controller) (x : Unit {0}) (t : Controller)
    → s.resource_record ≡ new_record
    → set_up_body sid topology s ≡ (some x, t)
    → IsRecorded s t
unfolding set_up_body
set_up_body-IsRecorded sid topology s x t fresh h = bind-elim _ _ s x t h (λ y s1 cleared h1.
    bind-elim _ _ s1 x t h1 (λ ids s2 made h2.
      let first = clear_network-Adds sid topology s y s1 cleared in
      after-IsRecorded s s1 t first (
        IsRecorded-after s1 s2 t
          (set_up_containers-IsRecorded sid topology s1 ids s2 (first.same ∙ fresh) made)
          (wait_for-Adds ids s2 x t h2))))

-- After a set-up that succeeds, the submission has a record, and it lists all that was made.
pub record IsSetUp (sid : Text) (s t : Controller) : Type 0 where
  pub resource : Resource
  pub found : lookup sid t.resources ≡ some resource
  pub containers :
      made_ids is_create_container t.calls
      ≡ made_ids is_create_container s.calls ++ containers_of resource
  pub networks :
      made_ids is_create_network t.calls ≡ made_ids is_create_network s.calls ++ resource.net_ids

IsSetUp-register :
    (sid : Text) (s after : Controller)
    → IsRecorded (record s { resource_record = new_record }) after
    → IsSetUp sid s (record after { resources = insert sid after.resource_record after.resources })
IsSetUp-register sid s after r = record {
  resource = after.resource_record;
  found = lookup-insert_self sid after.resource_record after.resources;
  containers = r.containers;
  networks = r.networks;
}

ended-cases :
    (r : Option (Unit {0}) × Controller)
    → ((t : Controller) × (r ≡ (none, t))) ⊎ ((u : Unit {0}) × (t : Controller) × (r ≡ (some u, t)))
ended-cases (none, t) = inl (t, refl)
ended-cases (some u, t) = inr (u, t, refl)

pub setup_topology-IsSetUp :
    (sid : Text) (topology : Topology) (s : Controller) (x : Unit {0}) (t : Controller)
    → setup_topology sid topology s ≡ (some x, t)
    → IsSetUp sid s t
unfolding setup_topology
setup_topology-IsSetUp sid topology s x t h =
    let start = record s { resource_record = new_record } in
    let finish : Option (Unit {0}) × Controller → Option (Unit {0}) × Controller = λ r. elim r.0 [
      | none ↦ (none, clean_up r.1.resource_record r.1)
      | some u ↦ (some tt, record r.1 { resources = insert sid r.1.resource_record r.1.resources })
    ] in
    elim (ended-cases (set_up_body sid topology start)) [
      | inl (after, e) ↦ absurd (let g = subst (λ r. finish r ≡ (some x, t)) e h in cc)
      | inr (u, after, e) ↦
          subst (IsSetUp sid s) (ap (λ q. q.1) (subst (λ r. finish r ≡ (some x, t)) e h)) (
            IsSetUp-register sid s after (set_up_body-IsRecorded sid topology start u after refl e))
    ]
