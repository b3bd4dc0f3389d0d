-- ===== src/Workspace.antt =====
-- internal/workspacecontext/context.go: the workspace of one Worker generation.
pub mod Validation
mod Examples
use dsh_work.Prelude.{
  String, Bool, true, false, not, ◌&&◌, ◌||◌, Option, none, some, ◌==◌, if◌then◌else◌,
}
use dsh_work.Prelude.Space.{trim_space}

pub data State : Type 0 where
  selected selection_required : State
  other : String → State

pub record Request : Type 0 where
  pub id : String
  pub path : String
  pub title : String

pub record Context : Type 0 where
  pub generation_id : String
  pub state : State
  pub id : String
  pub path : String
  pub title : String

pub data Error : Type 0 where
  cancelled generation_required id_required not_absolute path_required : Error
  unresolved unreadable not_directory foreign_generation : Error
  not_empty id_and_title_required not_canonical : Error
  unsupported_state : String → Error

pub data Result {ℓ} (A : Type ℓ) : Type ℓ where
  ok : A → Result A
  err : Error → Result A

infixl 5 ◌>>=◌
abbrev pub ◌>>=◌ {ℓ κ} : {X : Type ℓ} {Y : Type κ} → Result X → (X → Result Y) → Result Y
ok x >>= next = next x
err why >>= next = err why

abbrev pub or_fail {ℓ} : {A : Type ℓ} → Option A → Error → Result A
or_fail none e = err e
or_fail (some a) e = ok a

-- The operating system, as path/filepath and os show it: `none` is an error of the call.
pub record FileSystem : Type 0 where
  pub is_abs : String → Bool
  pub abs : String → Option String
  pub eval_symlinks : String → Option String
  pub stat_is_dir : String → Option Bool
  pub clean : String → String
  pub base : String → String

module _ (fs : FileSystem) where
  unfoldable pub canonical_directory : String → Result String
  canonical_directory text =
      let path = trim_space text in
      if path == ""
      then err path_required
      else if not (fs.is_abs path)
      then err not_absolute
      else do
        absolute ← or_fail (fs.abs path) unresolved
        canonical ← or_fail (fs.eval_symlinks absolute) unresolved
        directory ← or_fail (fs.stat_is_dir canonical) unreadable
        if directory then ok (fs.clean canonical) else err not_directory

  unfoldable pub new_selected : String → String → String → String → Result Context
  new_selected generation id path title =
      if trim_space generation == ""
      then err generation_required
      else if trim_space id == ""
      then err id_required
      else if not (fs.is_abs (trim_space path))
      then err not_absolute
      else do
        canonical ← canonical_directory path
        let trimmed = trim_space title
        ok (record {
          generation_id = generation;
          state = selected;
          id = trim_space id;
          path = canonical;
          title = if trimmed == "" then fs.base canonical else trimmed;
        })

  -- `SurfaceResolver.Resolve`; the first argument tells whether the context has ended.
  unfoldable pub resolve : Bool → String → Request → Result Context
  resolve true generation r = err cancelled
  resolve false generation r =
      if trim_space generation == ""
      then err generation_required
      else if trim_space r.id == "" && trim_space r.path == "" && trim_space r.title == ""
      then ok (record {
        generation_id = generation;
        state = selection_required;
        id = "";
        path = "";
        title = "";
      })
      else new_selected generation r.id r.path r.title

  validate_state : State → Context → Result (Unit {0})
  validate_state selection_required c =
      if not (c.id == "") || not (c.path == "") || not (c.title == "") then err not_empty else ok tt
  validate_state selected c =
      if trim_space c.id == "" || trim_space c.title == "" then err id_and_title_required else do
        canonical ← canonical_directory c.path
        if canonical == c.path then ok tt else err not_canonical
  validate_state (other s) c = err (unsupported_state s)

  -- `Context.ValidateForGeneration`
  unfoldable pub validate_for_generation : Context → String → Result (Unit {0})
  unfolding validate_state
  validate_for_generation c generation =
      if trim_space generation == "" || not (c.generation_id == generation)
      then err foreign_generation
      else validate_state c.state c
