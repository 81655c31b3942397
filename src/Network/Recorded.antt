-- ===== src/Network/Recorded.antt =====
-- The resource_record of a network that is set up lists all that was made for it.
use sandbox_2025team.Network.Started.{
  start_router-Adds, start_custom_envs-Adds, start_sidecars-Adds, done-inv, addresses-Adds,
  wait_for-Adds,
}
use sandbox_2025team.Base.{List, ◌≡◌, ◌++◌, some, ◌∙◌, [], ap, append_assoc, sym, ◌∷◌, subst, refl}
use sandbox_2025team.Network.Calls.{
  is_create_container, is_create_network, Adds, bind-inv, Adds-refl, ask-Adds, made_ids, bind-elim,
}
use sandbox_2025team.Base.Text.{Text}
use sandbox_2025team.Network.Topology.{
  set_up_router, set_up_internal, new_record, Topology, containers_of, set_router, set_up_mixed,
  add_network, add_containers, set_mode, net_name_of,
}
use sandbox_2025team.Network.{Resource, Controller, set_record, External}

-- Adds, with the change of the record.
record Leads (s t : Controller) (ids nets : List Text) (change : Resource → Resource) : Type 0 where
  containers : made_ids is_create_container t.calls ≡ made_ids is_create_container s.calls ++ ids
  networks : made_ids is_create_network t.calls ≡ made_ids is_create_network s.calls ++ nets
  changed : t.resource_record ≡ change s.resource_record

Leads-of :
    (s t : Controller) (ids nets : List Text) → Adds s t ids nets → Leads s t ids nets (λ r. r)
Leads-of s t ids nets a = record {
  containers = a.containers;
  networks = a.networks;
  changed = a.same;
}

Leads-record :
    (f : Resource → Resource) (s : Controller) (u : Unit {0}) (t : Controller)
    → set_record f s ≡ (some u, t)
    → Leads s t [] [] f
Leads-record f s u t h =
    subst (λ w. Leads s w [] [] f) (ap (λ q. q.1) h)
      (record {
        containers = (Adds-refl s).containers;
        networks = (Adds-refl s).networks;
        changed = refl;
      })

Leads-then :
    (s t u : Controller) (ids nets more others : List Text) (f g : Resource → Resource)
    → Leads s t ids nets f
    → Leads t u more others g
    → Leads s u (ids ++ more) (nets ++ others) (λ r. g (f r))
Leads-then s t u ids nets more others f g a b = record {
  containers =
      b.containers
      ∙ (ap (λ xs. xs ++ more) a.containers
          ∙ append_assoc (made_ids is_create_container s.calls) ids more);
  networks =
      b.networks
      ∙ (ap (λ xs. xs ++ others) a.networks
          ∙ append_assoc (made_ids is_create_network s.calls) nets others);
  changed = b.changed ∙ ap g a.changed;
}

-- Every container and every network that was made since `s` is in the record, in order.
pub record IsRecorded (s t : Controller) : Type 0 where
  pub containers :
      made_ids is_create_container t.calls
      ≡ made_ids is_create_container s.calls ++ containers_of t.resource_record
  pub networks :
      made_ids is_create_network t.calls
      ≡ made_ids is_create_network s.calls ++ t.resource_record.net_ids

Leads-IsRecorded :
    (s t : Controller) (ids nets : List Text) (f : Resource → Resource)
    → s.resource_record ≡ new_record
    → Leads s t ids nets f
    → containers_of (f new_record) ≡ ids
    → (f new_record).net_ids ≡ nets
    → IsRecorded s t
Leads-IsRecorded s t ids nets f fresh l c n =
    let final = l.changed ∙ ap f fresh in
    record {
      containers =
          l.containers
          ∙ ap (λ xs. made_ids is_create_container s.calls ++ xs)
              (sym c ∙ sym (ap containers_of final));
      networks =
          l.networks
          ∙ ap (λ xs. made_ids is_create_network s.calls ++ xs)
              (sym n ∙ sym (ap (λ (r : Resource). r.net_ids) final));
    }

-- A step in front that makes something, or that writes into the record.
after-Adds :
    (s t u : Controller) (ids nets more others : List Text) (g : Resource → Resource)
    → Adds s t ids nets
    → Leads t u more others g
    → Leads s u (ids ++ more) (nets ++ others) g
after-Adds s t u ids nets more others g a =
    Leads-then s t u ids nets more others (λ r. r) g (Leads-of s t ids nets a)

after-record :
    (f : Resource → Resource) (s : Controller) (x : Unit {0}) (t u : Controller)
    (more others : List Text) (g : Resource → Resource)
    → set_record f s ≡ (some x, t)
    → Leads t u more others g
    → Leads s u more others (λ r. g (f r))
after-record f s x t u more others g h =
    Leads-then s t u [] [] more others f g (Leads-record f s x t h)

pub set_up_router-IsRecorded :
    (sid : Text) (external : External) (s : Controller) (ids : List Text) (t : Controller)
    → s.resource_record ≡ new_record
    → set_up_router sid external s ≡ (some ids, t)
    → IsRecorded s t
unfolding set_up_router
set_up_router-IsRecorded sid external s ids t fresh h =
    let (router, s1, started, h1) = bind-inv _ _ s ids t h in
    let (x, s2, noted, h2) = bind-inv _ _ s1 ids t h1 in
    let l =
      after-Adds s s1 s2 (router ∷ []) [] [] [] _ (start_router-Adds sid _ s router s1 started)
        (Leads-record (set_router router) s1 x s2 noted) in
    subst (IsRecorded s) (done-inv (router ∷ []) ids s2 t h2).1
      (Leads-IsRecorded s s2 (router ∷ []) [] (set_router router) fresh l refl refl)

pub set_up_internal-IsRecorded :
    (sid : Text) (topology : Topology) (s : Controller) (ids : List Text) (t : Controller)
    → s.resource_record ≡ new_record
    → set_up_internal sid topology s ≡ (some ids, t)
    → IsRecorded s t
unfolding set_up_internal is_create_container is_create_network
set_up_internal-IsRecorded sid topology s ids t fresh h = bind-elim _ _ s ids t h (λ net s1 made h1.
    bind-elim _ _ s1 ids t h1 (λ x s2 note_net h2. bind-elim _ _ s2 ids t h2 (λ sc s3 sidecars h3.
      bind-elim _ _ s3 ids t h3 (λ y s4 note_sc h4. bind-elim _ _ s4 ids t h4 (λ ce s5 envs h5.
        bind-elim _ _ s5 ids t h5 (λ z s6 note_ce h6.
          bind-elim _ _ s6 ids t h6 (λ w s7 note_mode h7.
            subst (IsRecorded s) (done-inv (sc ++ ce) ids s7 t h7).1 (
              Leads-IsRecorded s s7 (sc ++ (ce ++ [])) (net ∷ []) _ fresh
                (after-Adds s s1 s7 [] (net ∷ []) (sc ++ (ce ++ [])) [] _ (ask-Adds _ s net s1 made)
                  (after-record (add_network net) s1 x s2 s7 (sc ++ (ce ++ [])) [] _ note_net (
                    after-Adds s2 s3 s7 sc [] (ce ++ []) [] _
                      (start_sidecars-Adds _ sid 0 topology.sidecars _ s2 sc s3 sidecars)
                      (after-record (add_containers sc) s3 y s4 s7 (ce ++ []) [] _ note_sc (
                        after-Adds s4 s5 s7 ce [] [] [] _
                          (start_custom_envs-Adds sid topology.images _ s4 ce s5 envs)
                          (after-record (add_containers ce) s5 z s6 s7 [] [] _ note_ce
                            (Leads-record (set_mode (net_name_of sid)) s6 w s7 note_mode)))))))
                (append_assoc sc ce []) refl))))))))

pub set_up_mixed-IsRecorded :
    (sid : Text) (topology : Topology) (external : External) (s : Controller) (ids : List Text)
    (t : Controller)
    → s.resource_record ≡ new_record
    → set_up_mixed sid topology external s ≡ (some ids, t)
    → IsRecorded s t
unfolding set_up_mixed is_create_container is_create_network
set_up_mixed-IsRecorded sid topology external s ids t fresh h =
    bind-elim _ _ s ids t h (λ net s1 made h1. bind-elim _ _ s1 ids t h1 (λ x s2 note_net h2.
      bind-elim _ _ s2 ids t h2 (λ sc s3 sidecars h3. bind-elim _ _ s3 ids t h3 (λ ce s4 envs h4.
        bind-elim _ _ s4 ids t h4 (λ y s5 note_both h5. bind-elim _ _ s5 ids t h5 (λ z s6 waited h6.
          bind-elim _ _ s6 ids t h6 (λ ips s7 inspected h7.
            bind-elim _ _ s7 ids t h7 (λ router s8 started h8.
              bind-elim _ _ s8 ids t h8 (λ r s9 connected h9.
                bind-elim _ _ s9 ids t h9 (λ w s10 note_router h10.
                  subst (IsRecorded s) (done-inv (router ∷ []) ids s10 t h10).1 (
                    Leads-IsRecorded s s10 (sc ++ (ce ++ router ∷ [])) (net ∷ []) _ fresh
                      (after-Adds s s1 s10 [] (net ∷ []) (sc ++ (ce ++ router ∷ [])) [] _
                        (ask-Adds _ s net s1 made)
                        (after-record (add_network net) s1 x s2 s10 (sc ++ (ce ++ router ∷ [])) [] _
                          note_net
                          (after-Adds s2 s3 s10 sc [] (ce ++ router ∷ []) [] _
                            (start_sidecars-Adds _ sid 0 topology.sidecars _ s2 sc s3 sidecars)
                            (after-Adds s3 s4 s10 ce [] (router ∷ []) [] _
                              (start_custom_envs-Adds sid topology.images _ s3 ce s4 envs)
                              (after-record (add_containers (sc ++ ce)) s4 y s5 s10 (router ∷ []) []
                                _ note_both
                                (after-Adds s5 s6 s10 [] [] (router ∷ []) [] _
                                  (wait_for-Adds (sc ++ ce) s5 z s6 waited)
                                  (after-Adds s6 s7 s10 [] [] (router ∷ []) [] _
                                    (subst (λ q. Adds s6 q [] []) (ap (λ q. q.1) inspected)
                                      (addresses-Adds (sc ++ ce) s6))
                                    (after-Adds s7 s8 s10 (router ∷ []) [] [] [] _
                                      (start_router-Adds sid _ s7 router s8 started)
                                      (after-Adds s8 s9 s10 [] [] [] [] _
                                        (ask-Adds _ s8 r s9 connected)
                                        (Leads-record (set_router router) s9 w s10
                                          note_router))))))))))
                      (append_assoc sc ce (router ∷ [])) refl)))))))))))
