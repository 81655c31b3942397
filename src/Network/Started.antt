-- ===== src/Network/Started.antt =====
-- A start that succeeds returns the ids of the containers that were made.
use sandbox_2025team.Meta.{Sidecar}
use sandbox_2025team.Dict.{Dict}
use sandbox_2025team.Base.Text.{Text}
use sandbox_2025team.Network.Calls.{
  is_create_container, is_create_network, Adds, bind-inv, Adds-refl, ask-Adds, Adds-then,
  record_call-plain, Reply-cases,
}
use sandbox_2025team.Base.{
  Bool, ◌≡◌, some, false, true, ap, [], subst, ◌∷◌, List, ℕ, refl, ◌+◌, Option, inl, Bool-cases,
  is_empty, none, inr,
}
use sandbox_2025team.Network.{
  raises, Docker, Call, Controller, create_and_start, done, require, ask, ◌>>=◌, start_sidecars,
  start_custom_envs, start_router, ensure_image, RouterConfig, wait_for, start, put_archive, wait,
  addresses, record_call, inspect_container, inspect_image, Reply, next_reply, returns, pull,
  image_not_found,
}

pub done-inv :
    {A : Type 0} (a b : A) (s t : Controller) → done a s ≡ (some b, t) → (a ≡ b) × (s ≡ t)
done-inv a b s t h = (let g : some a ≡ some b = ap (λ q. q.0) h in cc, ap (λ q. q.1) h)

-- A call that makes nothing.
plain-Adds :
    (call : Call) (s : Controller) (u : Unit {0}) (t : Controller)
    → is_create_container call ≡ false
    → is_create_network call ≡ false
    → (ask call >>= (λ r. done tt)) s ≡ (some u, t)
    → Adds s t [] []
plain-Adds call s u t c n h =
    let (r, v, asked, ended) = bind-inv (ask call) (λ r. done tt) s u t h in
    let a = ask-Adds call s r v asked in
    let plain : Adds s v [] [] = rw (c, n) at a in
    subst (λ w. Adds s w [] []) (done-inv tt u v t ended).1 plain

require-Adds :
    (b : Bool) (s : Controller) (u : Unit {0}) (t : Controller)
    → require b s ≡ (some u, t)
    → Adds s t [] []
require-Adds b s u t h = subst (λ w. Adds s w [] []) (ap (λ q. q.1) h) (Adds-refl s)

create_and_start-Adds :
    (call : Call) (between : Text → Docker (Unit {0})) (s : Controller) (c : Text) (t : Controller)
    → is_create_container call ≡ true
    → is_create_network call ≡ false
    → ((c : Text) (u : Controller) (x : Unit {0}) (v : Controller)
        → between c u ≡ (some x, v)
        → Adds u v [] [])
    → create_and_start call between s ≡ (some c, t)
    → Adds s t (c ∷ []) []
unfolding create_and_start is_create_container is_create_network
create_and_start-Adds call between s c t is_c is_n nothing h =
    let (c', s1, asked, h1) = bind-inv (ask call) _ s c t h in
    let (x, s2, asked_between, h2) = bind-inv _ _ s1 c t h1 in
    let (r, s3, started, h3) = bind-inv _ _ s2 c t h2 in
    let (same, over) = done-inv c' c s3 t h3 in
    let a = ask-Adds call s c' s1 asked in
    let made : Adds s s1 (c' ∷ []) [] = rw (is_c, is_n) at a in
    let ran : Adds s1 s3 [] [] =
      Adds-then s1 s2 s3 [] [] [] [] (nothing c' s1 x s2 asked_between)
        (ask-Adds (start c') s2 r s3 started) in
    let whole : Adds s s3 (c' ∷ []) [] = Adds-then s s1 s3 (c' ∷ []) [] [] [] made ran in
    subst (λ k. Adds s t (k ∷ []) []) same (subst (λ w. Adds s w (c' ∷ []) []) over whole)

ensure_image-Adds :
    (image : Text) (s : Controller) (u : Unit {0}) (t : Controller)
    → ensure_image image s ≡ (some u, t)
    → Adds s t [] []
unfolding ensure_image is_create_container is_create_network
ensure_image-Adds image s u t h =
    let looked = record_call (inspect_image image) s in
    let first = record_call-plain (inspect_image image) s refl refl in
    let onward : Reply → Option (Unit {0}) × Controller = λ r. elim r [
      | returns t ↦ (some tt, looked)
      | image_not_found ↦ (ask (pull image) >>= (λ t. done tt)) looked
      | raises ↦ (none, looked)
    ] in
    elim (Reply-cases (next_reply s.replies)) [
      | inl (r, e) ↦
          let g = subst (λ q. onward q ≡ (some u, t)) e h in
          subst (λ w. Adds s w [] []) (done-inv tt u looked t g).1 first
      | inr (inl e) ↦
          let g = subst (λ q. onward q ≡ (some u, t)) e h in
          Adds-then s looked t [] [] [] [] first (plain-Adds (pull image) looked u t refl refl g)
      | inr (inr e) ↦ absurd (let g = subst (λ q. onward q ≡ (some u, t)) e h in cc)
    ]

pub start_sidecars-Adds :
    (allowed : List Text) (sid : Text) (i : ℕ) (configs : List Sidecar) (net_name : Text)
    (s : Controller) (ids : List Text) (t : Controller)
    → start_sidecars allowed sid i configs net_name s ≡ (some ids, t)
    → Adds s t ids []
unfolding start_sidecars is_create_container is_create_network
start_sidecars-Adds allowed sid i [] net_name s ids t h =
    let (same, over) = done-inv [] ids s t h in
    subst (λ k. Adds s t k []) same (subst (λ w. Adds s w [] []) over (Adds-refl s))
start_sidecars-Adds allowed sid i (sc ∷ configs) net_name s ids t h =
    let (x, s1, valid, h1) = bind-inv _ _ s ids t h in
    let (y, s2, there, h2) = bind-inv _ _ s1 ids t h1 in
    let (c, s3, started, h3) = bind-inv _ _ s2 ids t h2 in
    let (rest, s4, others, h4) = bind-inv _ _ s3 ids t h3 in
    let (same, over) = done-inv (c ∷ rest) ids s4 t h4 in
    let one : Adds s2 s3 (c ∷ []) [] =
      create_and_start-Adds _ _ s2 c s3 refl refl
        (λ k v z w e. subst (λ q. Adds v q [] []) (done-inv tt z v w e).1 (Adds-refl v)) started in
    let whole : Adds s s4 (c ∷ rest) [] =
      Adds-then s s1 s4 [] [] (c ∷ rest) [] (require-Adds _ s x s1 valid) (
        Adds-then s1 s2 s4 [] [] (c ∷ rest) [] (ensure_image-Adds sc.image s1 y s2 there) (
          Adds-then s2 s3 s4 (c ∷ []) [] rest [] one
            (start_sidecars-Adds allowed sid (i + 1) configs net_name s3 rest s4 others))) in
    subst (λ k. Adds s t k []) same (subst (λ w. Adds s w (c ∷ rest) []) over whole)

pub start_custom_envs-Adds :
    (sid : Text) (images : Dict Text) (net_name : Text) (s : Controller) (ids : List Text)
    (t : Controller)
    → start_custom_envs sid images net_name s ≡ (some ids, t)
    → Adds s t ids []
unfolding start_custom_envs is_create_container is_create_network
start_custom_envs-Adds sid [] net_name s ids t h =
    let (same, over) = done-inv [] ids s t h in
    subst (λ k. Adds s t k []) same (subst (λ w. Adds s w [] []) over (Adds-refl s))
start_custom_envs-Adds sid ((alias, image) ∷ images) net_name s ids t h =
    let (c, s1, started, h1) = bind-inv _ _ s ids t h in
    let (rest, s2, others, h2) = bind-inv _ _ s1 ids t h1 in
    let (same, over) = done-inv (c ∷ rest) ids s2 t h2 in
    let one : Adds s s1 (c ∷ []) [] =
      create_and_start-Adds _ _ s c s1 refl refl
        (λ k v z w e. subst (λ q. Adds v q [] []) (done-inv tt z v w e).1 (Adds-refl v)) started in
    let whole : Adds s s2 (c ∷ rest) [] =
      Adds-then s s1 s2 (c ∷ []) [] rest [] one
        (start_custom_envs-Adds sid images net_name s1 rest s2 others) in
    subst (λ k. Adds s t k []) same (subst (λ w. Adds s w (c ∷ rest) []) over whole)

pub start_router-Adds :
    (sid : Text) (config : RouterConfig) (s : Controller) (c : Text) (t : Controller)
    → start_router sid config s ≡ (some c, t)
    → Adds s t (c ∷ []) []
unfolding start_router is_create_container is_create_network
start_router-Adds sid config s c t h =
    create_and_start-Adds _ _ s c t refl refl
      (λ k v z w e. plain-Adds (put_archive k config) v z w refl refl e) h

pub wait_for-Adds :
    (ids : List Text) (s : Controller) (u : Unit {0}) (t : Controller)
    → wait_for ids s ≡ (some u, t)
    → Adds s t [] []
unfolding is_create_container is_create_network
wait_for-Adds [] s u t h = subst (λ w. Adds s w [] []) (done-inv tt u s t h).1 (Adds-refl s)
wait_for-Adds (c ∷ ids) s u t h = plain-Adds (wait (c ∷ ids)) s u t refl refl h

pub addresses-Adds : (ids : List Text) (s : Controller) → Adds s (addresses ids s).1 [] []
unfolding addresses is_create_container is_create_network
addresses-Adds [] s = Adds-refl s
addresses-Adds (c ∷ ids) s =
    let looked = record_call (inspect_container c) s in
    let rest = addresses ids looked in
    let a : Adds s rest.1 [] [] =
      Adds-then s looked rest.1 [] [] [] [] (record_call-plain (inspect_container c) s refl refl)
        (addresses-Adds ids looked) in
    elim (Reply-cases (next_reply s.replies)) [
      | inl (ip, e) ↦
          rw (e, addresses)
            (elim (Bool-cases (is_empty ip)) [ inl blank ↦ rw blank a | inr filled ↦ rw filled a ])
      | inr (inl e) ↦ rw (e, addresses) a
      | inr (inr e) ↦ rw (e, addresses) a
    ]
