-- ===== src/Dict/Laws.antt =====
-- Lookup after each operation of a dict, and membership after each operation of a set.
use sandbox_2025team.Base.{
  true, false, List, [], ◌∷◌, ◌++◌, none, some, ◌≡◌, refl, ◌||◌, if◌then◌else◌, arith, ◌≢◌,
}
use sandbox_2025team.Base.Text.{Text, text_eq, text_eq_iff, text_eq_refl}
use sandbox_2025team.Dict.{Dict, lookup, insert, delete, has_key, keys, add, discard, contains}

module _ {ℓ} {V : Type ℓ} where
  pub lookup-insert :
      (k j : Text) (v : V) (m : Dict V)
      → lookup j (insert k v m) ≡ (if text_eq k j then some v else lookup j m)
  unfolding lookup insert
  lookup-insert k j v [] = refl
  lookup-insert k j v ((i, w) ∷ m) =
      ground (arith, text_eq_iff k j, text_eq_iff i k, text_eq_iff i j, lookup-insert k j v m)

  pub lookup-delete :
      (k j : Text) (m : Dict V) → lookup j (delete k m) ≡ (if text_eq k j then none else lookup j m)
  unfolding lookup delete
  lookup-delete k j [] = ground arith
  lookup-delete k j ((i, w) ∷ m) =
      ground (arith, text_eq_iff k j, text_eq_iff i k, text_eq_iff i j, lookup-delete k j m)

  pub has_key-lookup :
      (k : Text) (m : Dict V) → has_key k m ≡ (elim (lookup k m) [ none ↦ false | some _ ↦ true ])
  unfolding lookup has_key
  has_key-lookup k [] = refl
  has_key-lookup k ((i, w) ∷ m) = ground (arith, has_key-lookup k m)

  pub has_key-insert :
      (k j : Text) (v : V) (m : Dict V) → has_key j (insert k v m) ≡ (text_eq k j || has_key j m)
  unfolding has_key insert
  has_key-insert k j v [] = refl
  has_key-insert k j v ((i, w) ∷ m) =
      ground (arith, text_eq_iff k j, text_eq_iff i k, text_eq_iff i j, has_key-insert k j v m)

  pub has_key-delete :
      (k j : Text) (m : Dict V)
      → has_key j (delete k m) ≡ (if text_eq k j then false else has_key j m)
  unfolding has_key delete
  has_key-delete k j [] = ground arith
  has_key-delete k j ((i, w) ∷ m) =
      ground (arith, text_eq_iff k j, text_eq_iff i k, text_eq_iff i j, has_key-delete k j m)

  -- A fresh key goes to the end.
  pub insert_fresh :
      (k : Text) (v : V) (m : Dict V) → has_key k m ≡ false → insert k v m ≡ m ++ (k, v) ∷ []
  unfolding insert has_key
  insert_fresh k v [] h = refl
  insert_fresh k v ((i, w) ∷ m) h = ground (arith, insert_fresh k v m)

  -- An assignment to a present key keeps the keys and their order.
  pub keys-insert :
      (k : Text) (v : V) (m : Dict V) → has_key k m ≡ true → keys (insert k v m) ≡ keys m
  unfolding insert has_key
  keys-insert k v [] h = ground arith
  keys-insert k v ((i, w) ∷ m) h = ground (arith, keys-insert k v m)

module _ {ℓ} {V : Type ℓ} where
  pub insert-insert : (k : Text) (v w : V) (m : Dict V) → insert k w (insert k v m) ≡ insert k w m
  unfolding insert
  insert-insert k v w [] = ground (arith, text_eq_iff k k)
  insert-insert k v w ((i, u) ∷ m) = ground (arith, insert-insert k v w m)

  -- An assignment of the value that is there changes nothing.
  pub insert_same : (k : Text) (v : V) (m : Dict V) → lookup k m ≡ some v → insert k v m ≡ m
  unfolding insert lookup
  insert_same k v [] h = ground arith
  insert_same k v ((i, u) ∷ m) h = ground (arith, insert_same k v m)

  pub lookup-insert_self : (k : Text) (v : V) (m : Dict V) → lookup k (insert k v m) ≡ some v
  lookup-insert_self k v m = simp (lookup-insert, text_eq_refl)

  pub lookup-insert_ne :
      (k j : Text) (v : V) (m : Dict V) → k ≢ j → lookup j (insert k v m) ≡ lookup j m
  lookup-insert_ne k j v m h = ground (arith, lookup-insert k j v m, text_eq_iff k j)

  pub has_key_found : (k : Text) (v : V) (m : Dict V) → lookup k m ≡ some v → has_key k m ≡ true
  has_key_found k v m h = ground (arith, has_key-lookup k m)

pub contains-add :
    (k j : Text) (s : List Text) → contains j (add k s) ≡ (text_eq k j || contains j s)
unfolding contains add
contains-add k j [] = refl
contains-add k j (i ∷ s) =
    ground (arith, text_eq_iff k j, text_eq_iff i k, text_eq_iff i j, contains-add k j s)

pub contains-discard :
    (k j : Text) (s : List Text)
    → contains j (discard k s) ≡ (if text_eq k j then false else contains j s)
unfolding contains discard
contains-discard k j [] = ground arith
contains-discard k j (i ∷ s) =
    ground (arith, text_eq_iff k j, text_eq_iff i k, text_eq_iff i j, contains-discard k j s)
