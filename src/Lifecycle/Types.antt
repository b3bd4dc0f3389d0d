-- ===== src/Lifecycle/Types.antt =====
-- The data of internal/lifecycle/types.go and of internal/workspacecontext/context.go.
use dsh_work.Prelude.{ℕ, String, Bool, false, Option, none, List}
use dsh_work.Workspace.{Context}

-- The lifecycle state that is projected to the trusted UI.
pub data State : Type 0 where
  starting ready stopping stopped failed : State

-- The bounded startup or shutdown step in progress.
pub data Phase : Type 0 where
  idle configuration runtime node profile worker readiness : Phase
  checkpoint workspace stopping failed : Phase

pub data PreparationState : Type 0 where
  idle resolving_toolchain acquiring_node acquiring_dsh : PreparationState
  verifying installed cancelled failed : PreparationState

pub data PreparationOperation : Type 0 where
  no_operation detect_node detect_pnpm detect_npm : PreparationOperation
  download_node install_dsh verify cleanup : PreparationOperation

pub data PreparationSource : Type 0 where
  no_source local official mirror : PreparationSource

-- The machine never looks into an error code.
abbrev pub ErrorCode : Type 0
ErrorCode = String

pub record Failure : Type 0 where
  pub code : ErrorCode
  pub summary : String
  pub retryable : Bool
  pub effect_occurred : Bool
  pub correlation_id : String
  pub detail : String

pub record RuntimePreparation : Type 0 where
  pub state : PreparationState
  pub operation : PreparationOperation
  pub target_version : String
  pub toolchain : String
  pub source : PreparationSource
  pub received_bytes : ℕ
  pub total_bytes : ℕ
  pub has_total : Bool
  pub can_cancel : Bool
  pub error : Option Failure

pub record LaunchSelection : Type 0 where
  pub runtime_version : String
  pub runtime_path : String
  pub node_version : String
  pub node_path : String
  pub data_directory_path : String
  pub profile_name : String
  pub runtime_id : String
  pub node_id : String

pub record FaultPlugin : Type 0 where
  pub package_name : String
  pub enabled : Bool
  pub suspected : Bool

pub record PluginFault : Type 0 where
  pub plugins : List FaultPlugin

-- The read model of the frontend; a nil pointer is `none`, an absent text is "".
pub record Status : Type 0 where
  pub launch_selection : Option LaunchSelection
  pub state : State
  pub phase : Phase
  pub generation_id : String
  pub workspace_url : String
  pub workspace : Option Context
  pub runtime_preparation : Option RuntimePreparation
  pub error : Option Failure
  pub plugin_fault : Option PluginFault
  pub can_retry : Bool
  pub can_cancel : Bool
  pub correlation_id : String

-- The zero value of the struct, in the state and phase that are given.
abbrev pub zero_status : State → Phase → Status
zero_status s p = record {
  launch_selection = none;
  state = s;
  phase = p;
  generation_id = "";
  workspace_url = "";
  workspace = none;
  runtime_preparation = none;
  error = none;
  plugin_fault = none;
  can_retry = false;
  can_cancel = false;
  correlation_id = "";
}
