-- ===== src/Network/Removed.antt =====
-- What a call of cleanup asks to have removed.
use sandbox_2025team.Dict.{delete}
use sandbox_2025team.Results.{or_default}
use sandbox_2025team.Network.Complete.{setup_topology-IsSetUp}
use sandbox_2025team.Network.Calls.{made_ids, is_create_container, is_create_network}
use sandbox_2025team.Base.{
  List, Bool, ℕ, ◌≡◌, any, false, ◌||◌, true, arith, ◌∷◌, suc, zero, any-append, [], Option,
  Bool-cases, map, inl, none, subst, some, inr, ◌∙◌, ap, ◌++◌, sym,
}
use sandbox_2025team.Base.Text.{Text, one_of, text_eq, text_eq_refl, text_eq_iff}
use sandbox_2025team.Network.Topology.{
  remove_with_retry, remove_networks, cleanup, clean_up, Topology, containers_of, setup_topology,
  disconnects, new_record,
}
use sandbox_2025team.Network.{
  Call, record_call, try_calls, try_call, remove_container, remove_network, Controller, next_reply,
  ask, Resource, stop,
}

-- Whether a call of a kind was made.
abbrev pub asked : (Call → Bool) → Controller → Bool
asked test s = any (λ q. test q.0) s.calls

abbrev pub removes_container : Text → Call → Bool
removes_container c (remove_container d) = text_eq c d
removes_container c _ = false

abbrev pub removes_network : Text → Call → Bool
removes_network n (remove_network m) = text_eq n m
removes_network n _ = false

record_call-asked :
    (test : Call → Bool) (call : Call) (s : Controller)
    → asked test (record_call call s) ≡ (asked test s || test call)
unfolding record_call
record_call-asked test call s =
    ground (arith, any-append (λ q. test q.0) s.calls ((call, next_reply s.replies) ∷ []))

try_calls-asked :
    (test : Call → Bool) (calls : List Call) (s : Controller)
    → asked test (try_calls calls s) ≡ (asked test s || any test calls)
unfolding try_calls try_call
try_calls-asked test [] s = ground arith
try_calls-asked test (call ∷ calls) s =
    ground (arith, try_calls-asked test calls (record_call call s), record_call-asked test call s)

either-asked :
    (test : Call → Bool) (removed : Option Text) (a b : Controller)
    → asked test a ≡ true
    → asked test b ≡ true
    → asked test (elim removed [ none ↦ a | some t ↦ b ]) ≡ true
either-asked test none a b ha hb = ha
either-asked test (some t) a b ha hb = hb

remove_with_retry-keeps :
    (test : Call → Bool) (attempts : ℕ) (n : Text) (s : Controller)
    → asked test s ≡ true
    → asked test (remove_with_retry attempts n s) ≡ true
unfolding remove_with_retry ask
remove_with_retry-keeps test zero n s h = h
remove_with_retry-keeps test (suc attempts) n s h =
    let after = record_call (remove_network n) s in
    let kept : asked test after ≡ true =
      ground (arith, h, record_call-asked test (remove_network n) s) in
    either-asked test _ _ after (remove_with_retry-keeps test attempts n after kept) kept

remove_with_retry-asked :
    (n : Text) (s : Controller) → asked (removes_network n) (remove_with_retry 3 n s) ≡ true
unfolding remove_with_retry ask
remove_with_retry-asked n s =
    let after = record_call (remove_network n) s in
    let first : asked (removes_network n) after ≡ true =
      ground (arith, text_eq_refl n, record_call-asked (removes_network n) (remove_network n) s) in
    either-asked (removes_network n) (ask (remove_network n) s).0 (remove_with_retry 2 n after)
      after (remove_with_retry-keeps (removes_network n) 2 n after first) first

remove_networks-keeps :
    (test : Call → Bool) (net_ids : List Text) (s : Controller)
    → asked test s ≡ true
    → asked test (remove_networks net_ids s) ≡ true
unfolding remove_networks
remove_networks-keeps test [] s h = h
remove_networks-keeps test (m ∷ net_ids) s h =
    remove_networks-keeps test net_ids (remove_with_retry 3 m s)
      (remove_with_retry-keeps test 3 m s h)

remove_networks-asked :
    (n : Text) (net_ids : List Text) (s : Controller)
    → one_of n net_ids ≡ true
    → asked (removes_network n) (remove_networks net_ids s) ≡ true
unfolding remove_networks one_of
remove_networks-asked n [] s h = absurd cc
remove_networks-asked n (m ∷ net_ids) s h = elim (Bool-cases (text_eq n m)) [
  | inl same ↦ remove_networks-keeps (removes_network n) net_ids (remove_with_retry 3 m s) (
      subst (λ k. asked (removes_network n) (remove_with_retry 3 k s) ≡ true)
        ((text_eq_iff n m).0 same) (remove_with_retry-asked n s))
  | inr other ↦ remove_networks-asked n net_ids (remove_with_retry 3 m s) (ground (arith, h, other))
]

remove_containers-any :
    (c : Text) (ids : List Text)
    → one_of c ids ≡ true
    → any (removes_container c) (map remove_container ids) ≡ true
unfolding one_of
remove_containers-any c [] h = absurd cc
remove_containers-any c (d ∷ ids) h = ground (arith, h, remove_containers-any c ids)

clean_up-removes :
    (r : Resource) (s : Controller) (c : Text)
    → one_of c (containers_of r) ≡ true
    → asked (removes_container c) (clean_up r s) ≡ true
unfolding clean_up
clean_up-removes r s c h =
    let ids = containers_of r in
    let stopped = try_calls (map stop ids) (try_calls (disconnects r.net_ids ids) s) in
    remove_networks-keeps (removes_container c) r.net_ids
      (try_calls (map remove_container ids) stopped)
      (ground (
        arith,
        remove_containers-any c ids h,
        try_calls-asked (removes_container c) (map remove_container ids) stopped,
      ))

clean_up-removes_network :
    (r : Resource) (s : Controller) (n : Text)
    → one_of n r.net_ids ≡ true
    → asked (removes_network n) (clean_up r s) ≡ true
unfolding clean_up
clean_up-removes_network r s n h =
    let ids = containers_of r in
    remove_networks-asked n r.net_ids
      (try_calls (map remove_container ids)
        (try_calls (map stop ids) (try_calls (disconnects r.net_ids ids) s)))
      h

-- After a set-up that succeeds, from an empty log of calls on, cleanup asks for the removal of each
-- container and of each network that the set-up has made, whatever the replies are.
pub cleanup-removes :
    (sid : Text) (topology : Topology) (s : Controller) (x : Unit {0}) (t : Controller)
    → s.calls ≡ []
    → setup_topology sid topology s ≡ (some x, t)
    → ((c : Text)
        → one_of c (made_ids is_create_container t.calls) ≡ true
        → asked (removes_container c) (cleanup sid t) ≡ true)
      × ((n : Text)
          → one_of n (made_ids is_create_network t.calls) ≡ true
          → asked (removes_network n) (cleanup sid t) ≡ true)
unfolding cleanup made_ids
cleanup-removes sid topology s x t empty h =
    let up = setup_topology-IsSetUp sid topology s x t h in
    let containers : made_ids is_create_container t.calls ≡ containers_of up.resource =
      up.containers
      ∙ ap (λ cs. made_ids is_create_container cs ++ containers_of up.resource) empty in
    let networks : made_ids is_create_network t.calls ≡ up.resource.net_ids =
      up.networks ∙ ap (λ cs. made_ids is_create_network cs ++ up.resource.net_ids) empty in
    let left = record t { resources = delete sid t.resources } in
    let blank = record new_record { mode = [] } in
    (
      λ c made.
          subst (λ r. asked (removes_container c) (clean_up (or_default blank r) left) ≡ true)
            (sym up.found)
            (clean_up-removes up.resource left c
              (subst (λ cs. one_of c cs ≡ true) containers made)),
      λ n made.
          subst (λ r. asked (removes_network n) (clean_up (or_default blank r) left) ≡ true)
            (sym up.found)
            (clean_up-removes_network up.resource left n
              (subst (λ ns. one_of n ns ≡ true) networks made)),
    )
