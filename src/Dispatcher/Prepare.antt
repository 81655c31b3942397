-- ===== src/Dispatcher/Prepare.antt =====
-- dispatcher/dispatcher.py, _prepare_custom_checker, _prepare_custom_scorer, _prepare_with_build_strategy
-- and the resource data of handle: what a new submission has prepared.
use sandbox_2025team.Dispatcher.Scorer.{Env}
use sandbox_2025team.Dict.{Dict, insert, lookup}
use sandbox_2025team.Errors.{Result}
use sandbox_2025team.Dispatcher.State.{AssetInfo, BuildPlan, State, truthy_text}
use sandbox_2025team.Base.Text.{Text, codes}
use sandbox_2025team.Meta.{Meta, ExecutionMode, BuildStrategy}
use sandbox_2025team.Base.{ℕ, Bool, if◌then◌else◌, Option, false, true, none, some, not, ◌||◌}

-- What a preparation step of another module returns: a value, perhaps None, or an exception's text.
pub data Prepared (A : Type 0) : Type 0 where
  prepared : A → Prepared A
  refused : Text → Prepared A

-- The outside of one call of handle. The build plans are those of the three prepare_... functions of
-- dispatcher/build_strategy.py.
pub record HandleEnv : Type 0 where
  pub exists : Bool
  pub is_dir : Bool
  pub meta : Result Meta
  pub checker : Prepared (Option Text)
  pub scorer : Prepared Text
  pub resource_data : Prepared (Option Text)
  pub teacher_resource_data : Prepared (Option Text)
  pub make_normal : Prepared BuildPlan
  pub make_interactive : Prepared BuildPlan
  pub make_function_only : Prepared BuildPlan
  pub now : ℕ
  pub completion : Env

abbrev disabled : AssetInfo
disabled = record { enabled = false; error = none; path = none; image = none }

abbrev enabled_error : Text → AssetInfo
enabled_error message = record { enabled = true; error = some message; path = none; image = none }

abbrev enabled_at : Text → Text → AssetInfo
enabled_at path image = record {
  enabled = true;
  error = none;
  path = some path;
  image = some image;
}

abbrev pub is_interactive : ExecutionMode → Bool
is_interactive ExecutionMode.interactive = true
is_interactive _ = false

-- The info that _prepare_custom_checker stores; an empty asset path counts as a missing one.
unfoldable pub custom_checker_info_of : Text → Prepared (Option Text) → Meta → AssetInfo
custom_checker_info_of image outcome meta =
    if is_interactive meta.execution_mode
    then disabled
    else if not meta.custom_checker
    then disabled
    else if not (truthy_text (lookup (codes "checker") meta.asset_paths))
    then enabled_error (codes "custom checker asset missing")
    else (elim outcome [
      | prepared none ↦ disabled
      | prepared (some path) ↦ enabled_at path image
      | refused message ↦ enabled_error message
    ])

-- The info that _prepare_custom_scorer stores: without an asset the default scoring stays.
unfoldable pub custom_scorer_info_of : Text → Prepared Text → Meta → AssetInfo
custom_scorer_info_of image outcome meta =
    if not meta.scoring_script
    then disabled
    else if not (
        truthy_text meta.scorer_asset
        || truthy_text (lookup (codes "scoring_script") meta.asset_paths))
    then disabled
    else (elim outcome [
      | prepared path ↦ enabled_at path image
      | refused message ↦ enabled_error message
    ])

unfoldable pub prepare_with_build_strategy : HandleEnv → Meta → Prepared BuildPlan
prepare_with_build_strategy env meta = elim meta.build_strategy [
  | BuildStrategy.compile ↦
      prepared (record { needs_make = false; lang_key = none; finalize = none })
  | BuildStrategy.make_normal ↦ env.make_normal
  | BuildStrategy.make_interactive ↦ env.make_interactive
  | BuildStrategy.make_function_only ↦ env.make_function_only
]

unfoldable pub note_dir : Text → Option Text → Dict Text → Dict Text
note_dir sid none dirs = dirs
note_dir sid (some dir) dirs = insert sid dir dirs

-- The resource data of the teacher, the second of the two.
unfoldable pub prepare_teacher_dir : HandleEnv → Text → Meta → State → Prepared (Unit {0}) × State
unfolding note_dir
prepare_teacher_dir env sid meta s =
    if meta.resource_data_teacher
    then (elim env.teacher_resource_data [
      | prepared dir ↦ (
        prepared tt,
        record s { teacher_resource_dirs = note_dir sid dir s.teacher_resource_dirs },
      )
      | refused message ↦ (refused message, s)
    ])
    else (prepared tt, s)

-- The resource directories, or the text of the exception, with what was stored before it.
unfoldable pub prepare_resources : HandleEnv → Text → Meta → State → Prepared (Unit {0}) × State
unfolding note_dir prepare_teacher_dir
prepare_resources env sid meta s =
    if meta.resource_data
    then (elim env.resource_data [
      | prepared dir ↦
          prepare_teacher_dir env sid meta
            (record s { resource_dirs = note_dir sid dir s.resource_dirs })
      | refused message ↦ (refused message, s)
    ])
    else prepare_teacher_dir env sid meta s
