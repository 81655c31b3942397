-- ===== src/Dict.antt =====
-- Python's `dict` keyed by texts, in insertion order: an assignment to a present key keeps its
-- place, `pop(key, None)` and a guarded `del` remove it, and a `set` of texts is a list of them.
pub mod Laws
use sandbox_2025team.Base.{Bool, false, List, [], ◌∷◌, Option, none, some, ◌||◌, if◌then◌else◌}
use sandbox_2025team.Base.Text.{Text, text_eq}

abbrev pub Dict {ℓ} : Type ℓ → Type ℓ
Dict V = List (Text × V)

module _ {ℓ} {V : Type ℓ} where
  unfoldable pub lookup : Text → Dict V → Option V
  lookup k [] = none
  lookup k ((j, v) ∷ m) = if text_eq j k then some v else lookup k m

  unfoldable pub insert : Text → V → Dict V → Dict V
  insert k v [] = (k, v) ∷ []
  insert k v ((j, w) ∷ m) = if text_eq j k then (j, v) ∷ m else (j, w) ∷ insert k v m

  -- A key stands once in a dict that `insert` built; all entries of the key are removed.
  unfoldable pub delete : Text → Dict V → Dict V
  delete k [] = []
  delete k ((j, w) ∷ m) = if text_eq j k then delete k m else (j, w) ∷ delete k m

  unfoldable pub has_key : Text → Dict V → Bool
  has_key k [] = false
  has_key k ((j, w) ∷ m) = text_eq j k || has_key k m

  abbrev pub keys : Dict V → List Text
  keys [] = []
  keys ((j, w) ∷ m) = j ∷ keys m

  abbrev pub values : Dict V → List V
  values [] = []
  values ((j, w) ∷ m) = w ∷ values m

unfoldable pub add : Text → List Text → List Text
add k [] = k ∷ []
add k (j ∷ s) = if text_eq j k then j ∷ s else j ∷ add k s

unfoldable pub discard : Text → List Text → List Text
discard k [] = []
discard k (j ∷ s) = if text_eq j k then discard k s else j ∷ discard k s

unfoldable pub contains : Text → List Text → Bool
contains k [] = false
contains k (j ∷ s) = text_eq j k || contains k s
