-- ===== src/Network/Calls.antt =====
-- Which containers and networks the calls of a successful step have made.
use sandbox_2025team.Base.Text.{Text}
use sandbox_2025team.Base.{
  Option, Bool, ◌≡◌, List, [], some, if◌then◌else◌, ◌++◌, sym, ◌∷◌, none, ◌⊎◌, inl, append-nil,
  Bool-cases, ◌∙◌, true, false, inr, refl, ap, append_assoc, subst,
}
use sandbox_2025team.Network.{
  Docker, Call, ask, Controller, Reply, ◌>>=◌, record_call, create_network, create_container,
  returns, image_not_found, raises, next_reply,
}

unfoldable pub is_create_container : Call → Bool
is_create_container (create_container name image network) = true
is_create_container _ = false

unfoldable pub is_create_network : Call → Bool
is_create_network (create_network name internal) = true
is_create_network _ = false

-- The ids that calls of a kind have returned.
unfoldable pub made_ids : (Call → Bool) → List (Call × Reply) → List Text
made_ids is_kind [] = []
made_ids is_kind ((call, reply) ∷ calls) =
    let later = made_ids is_kind calls in
    elim reply [
      | returns t ↦ if is_kind call then t ∷ later else later
      | image_not_found ↦ later
      | raises ↦ later
    ]

made_ids-append :
    (is_kind : Call → Bool) (xs ys : List (Call × Reply))
    → made_ids is_kind (xs ++ ys) ≡ made_ids is_kind xs ++ made_ids is_kind ys
unfolding made_ids
made_ids-append is_kind [] ys = refl
made_ids-append is_kind ((call, returns t) ∷ xs) ys = elim (Bool-cases (is_kind call)) [
  | inl e ↦ rw e (ap (λ zs. t ∷ zs) (made_ids-append is_kind xs ys))
  | inr e ↦ rw e (made_ids-append is_kind xs ys)
]
made_ids-append is_kind ((call, image_not_found) ∷ xs) ys = made_ids-append is_kind xs ys
made_ids-append is_kind ((call, raises) ∷ xs) ys = made_ids-append is_kind xs ys

-- From `s` to `t` these containers and networks were made, and nothing was written into the record.
pub record Adds (s t : Controller) (ids nets : List Text) : Type 0 where
  pub containers :
      made_ids is_create_container t.calls ≡ made_ids is_create_container s.calls ++ ids
  pub networks : made_ids is_create_network t.calls ≡ made_ids is_create_network s.calls ++ nets
  pub same : t.resource_record ≡ s.resource_record

pub Adds-refl : (s : Controller) → Adds s s [] []
Adds-refl s = record {
  containers = sym (append-nil (made_ids is_create_container s.calls));
  networks = sym (append-nil (made_ids is_create_network s.calls));
  same = refl;
}

pub Adds-then :
    (s t u : Controller) (ids nets more others : List Text)
    → Adds s t ids nets
    → Adds t u more others
    → Adds s u (ids ++ more) (nets ++ others)
Adds-then s t u ids nets more others a b = record {
  containers =
      b.containers
      ∙ (ap (λ xs. xs ++ more) a.containers
          ∙ append_assoc (made_ids is_create_container s.calls) ids more);
  networks =
      b.networks
      ∙ (ap (λ xs. xs ++ others) a.networks
          ∙ append_assoc (made_ids is_create_network s.calls) nets others);
  same = b.same ∙ a.same;
}

run-cases :
    {A : Type 0} (r : Option A × Controller)
    → ((t : Controller) × (r ≡ (none, t))) ⊎ ((a : A) × (t : Controller) × (r ≡ (some a, t)))
run-cases (none, t) = inl (t, refl)
run-cases (some a, t) = inr (a, t, refl)

-- A sequence that succeeds is a success after a success.
pub bind-inv :
    {A B : Type 0} (m : Docker A) (f : A → Docker B) (s : Controller) (b : B) (t : Controller)
    → (m >>= f) s ≡ (some b, t)
    → (a : A) × (u : Controller) × (m s ≡ (some a, u)) × (f a u ≡ (some b, t))
unfolding ◌>>=◌
bind-inv {A} {B} m f s b t h =
    let after : Option A × Controller → Option B × Controller =
      λ r. elim r.0 [ none ↦ (none, r.1) | some a ↦ f a r.1 ] in
    elim (run-cases (m s)) [
      | inl (u, e) ↦ absurd (let g = subst (λ r. after r ≡ (some b, t)) e h in cc)
      | inr (a, u, e) ↦ (a, u, e, subst (λ r. after r ≡ (some b, t)) e h)
    ]

pub bind-elim :
    {A B P : Type 0} (m : Docker A) (f : A → Docker B) (s : Controller) (b : B) (t : Controller)
    → (m >>= f) s ≡ (some b, t)
    → ((a : A) (u : Controller) → m s ≡ (some a, u) → f a u ≡ (some b, t) → P)
    → P
bind-elim m f s b t h go = let r = bind-inv m f s b t h in go r.0 r.1 r.2 r.3

pub Reply-cases :
    (r : Reply) → ((t : Text) × (r ≡ returns t)) ⊎ ((r ≡ image_not_found) ⊎ (r ≡ raises))
Reply-cases (returns t) = inl (t, refl)
Reply-cases image_not_found = inr (inl refl)
Reply-cases raises = inr (inr refl)

-- What a call that is answered has made.
abbrev pub made_by : (Call → Bool) → Call → Text → List Text
made_by is_kind call r = if is_kind call then r ∷ [] else []

made_ids-one :
    (is_kind : Call → Bool) (call : Call) (r : Text)
    → made_ids is_kind ((call, returns r) ∷ []) ≡ made_by is_kind call r
unfolding made_ids
made_ids-one is_kind call r = refl

record_call-Adds :
    (call : Call) (s : Controller) (r : Text)
    → next_reply s.replies ≡ returns r
    → Adds s
        (record_call call s)
        (made_by is_create_container call r)
        (made_by is_create_network call r)
unfolding record_call
record_call-Adds call s r e =
    let grown : (is_kind : Call → Bool)
        → made_ids is_kind (s.calls ++ (call, next_reply s.replies) ∷ [])
          ≡ made_ids is_kind s.calls ++ made_by is_kind call r =
      λ is_kind.
        made_ids-append is_kind s.calls ((call, next_reply s.replies) ∷ [])
        ∙ ap (λ xs. made_ids is_kind s.calls ++ xs)
            (ap (λ q. made_ids is_kind ((call, q) ∷ [])) e ∙ made_ids-one is_kind call r) in
    record {
      containers = grown is_create_container;
      networks = grown is_create_network;
      same = refl;
    }

made_ids-plain :
    (is_kind : Call → Bool) (call : Call) (reply : Reply)
    → is_kind call ≡ false
    → made_ids is_kind ((call, reply) ∷ []) ≡ []
unfolding made_ids
made_ids-plain is_kind call (returns t) h = rw h refl
made_ids-plain is_kind call image_not_found h = refl
made_ids-plain is_kind call raises h = refl

-- A call that makes nothing, whatever its reply is.
pub record_call-plain :
    (call : Call) (s : Controller)
    → is_create_container call ≡ false
    → is_create_network call ≡ false
    → Adds s (record_call call s) [] []
unfolding record_call
record_call-plain call s c n =
    let grown : (is_kind : Call → Bool)
        → is_kind call ≡ false
        → made_ids is_kind (s.calls ++ (call, next_reply s.replies) ∷ [])
          ≡ made_ids is_kind s.calls ++ [] =
      λ is_kind h.
        made_ids-append is_kind s.calls ((call, next_reply s.replies) ∷ [])
        ∙ ap (λ xs. made_ids is_kind s.calls ++ xs)
            (made_ids-plain is_kind call (next_reply s.replies) h) in
    record {
      containers = grown is_create_container c;
      networks = grown is_create_network n;
      same = refl;
    }

answer_of : Reply → Option Text
answer_of r = elim r [ returns t ↦ some t | image_not_found ↦ none | raises ↦ none ]

pub ask-Adds :
    (call : Call) (s : Controller) (r : Text) (t : Controller)
    → ask call s ≡ (some r, t)
    → Adds s t (made_by is_create_container call r) (made_by is_create_network call r)
unfolding ask answer_of
ask-Adds call s r t h =
    let left : record_call call s ≡ t = ap (λ q. q.1) h in
    let answered : answer_of (next_reply s.replies) ≡ some r = ap (λ q. q.0) h in
    elim (Reply-cases (next_reply s.replies)) [
      | inl (r', e) ↦
          let same : r' ≡ r = let g = ap answer_of e in cc in
          subst
            (λ u. Adds s u (made_by is_create_container call r) (made_by is_create_network call r))
            left (record_call-Adds call s r (e ∙ ap returns same))
      | inr (inl e) ↦ absurd (let g = ap answer_of e in cc)
      | inr (inr e) ↦ absurd (let g = ap answer_of e in cc)
    ]
