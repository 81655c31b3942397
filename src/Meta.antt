-- ===== src/Meta.antt =====
-- dispatcher/constant.py and dispatcher/meta.py: the enumerations and the metadata of a submission,
-- with the validators of its fields.
use sandbox_2025team.Base.{Bool, List, [], ◌∷◌, Option, none, some, if◌then◌else◌, map}
use sandbox_2025team.Base.Int.{ℤ, pos, eqb_ℤ, sum_ℤ}
use sandbox_2025team.Base.Text.{Text, codes}
use sandbox_2025team.Dict.{Dict, lookup}
use sandbox_2025team.Json.{Json, str}

pub data Language : Type 0 where
  c cpp py : Language

pub data AcceptedFormat : Type 0 where
  code zip : AcceptedFormat

pub data ExecutionMode : Type 0 where
  general function_only interactive : ExecutionMode

pub data BuildStrategy : Type 0 where
  compile make_normal make_function_only make_interactive : BuildStrategy

pub record Sidecar : Type 0 where
  pub image : Text
  pub name : Text
  pub env : Dict Text
  pub args : List Text

pub record Task : Type 0 where
  pub task_score : ℤ
  pub memory_limit : ℤ
  pub time_limit : ℤ
  pub case_count : ℤ

pub record Meta : Type 0 where
  pub language : Language
  pub tasks : List Task
  pub accepted_format : AcceptedFormat
  pub execution_mode : ExecutionMode
  pub build_strategy : BuildStrategy
  pub asset_paths : Dict Text
  pub teacher_first : Bool
  pub network_access_restriction : Option Json
  pub sidecars : List Sidecar
  pub custom_checker : Bool
  pub checker_asset : Option Text
  pub scoring_script : Bool
  pub scorer_asset : Option Text
  pub artifact_collection : List Text
  pub resource_data : Bool
  pub resource_data_teacher : Bool
  pub allow_read : Bool
  pub allow_write : Bool
  pub ai_checker : Option Json

-- What a `pre` validator hands on: a member of the enumeration, or the value as it came.
pub data Coerced (E : Type 0) : Type 0 where
  member : E → Coerced E
  kept : Json → Coerced E

-- `if isinstance(v, str): v = mapping.get(v, v)`.
unfoldable pub coerce : {E : Type 0} → Dict E → Json → Coerced E
coerce mapping (str s) = elim (lookup s mapping) [ some e ↦ member e | none ↦ kept (str s) ]
coerce mapping v = kept v

unfoldable pub coerce_accepted_format : Json → Coerced AcceptedFormat
unfolding coerce
coerce_accepted_format =
    coerce ((codes "code", AcceptedFormat.code) ∷ (codes "zip", AcceptedFormat.zip) ∷ [])

unfoldable pub coerce_execution_mode : Json → Coerced ExecutionMode
unfolding coerce
coerce_execution_mode = coerce (
    (codes "general", ExecutionMode.general)
    ∷ (codes "functionOnly", ExecutionMode.function_only)
    ∷ (codes "interactive", ExecutionMode.interactive)
    ∷ [])

unfoldable pub coerce_build_strategy : Json → Coerced BuildStrategy
unfolding coerce
coerce_build_strategy = coerce (
    (codes "compile", BuildStrategy.compile)
    ∷ (codes "makeNormal", BuildStrategy.make_normal)
    ∷ (codes "makeFunctionOnly", BuildStrategy.make_function_only)
    ∷ (codes "makeInteractive", BuildStrategy.make_interactive)
    ∷ [])

abbrev pub total_of : List Task → ℤ
total_of ts = sum_ℤ (map (λ t. t.task_score) ts)

-- The validator of `tasks`: `none` is the ValueError.
unfoldable pub validate_task : List Task → Option (List Task)
validate_task ts = if eqb_ℤ (total_of ts) (pos 100) then some ts else none
