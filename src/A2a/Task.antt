-- ===== src/A2a/Task.antt =====
-- domain/a2a/task.go, message.go, artifact.go, events.go and errors.go. Metadata is left out.
use Prim.Native.String.{◌++◌ as concat}
use mall.Base.{ℕ, String, Bool, ◌||◌, ◌==◌, Option, none, some, List, [], ◌∷◌, ◌++◌, if◌then◌else◌}
use mall.Kernel.{
  KernelId, Time, AggregateRoot, new_aggregate_root, add_event, Outcome, Error, foreign, wrapped,
}

pub data TaskState : Type 0 where
  submitted working input_required completed failed canceled rejected : TaskState

abbrev pub state_text : TaskState → String
state_text submitted = "submitted"
state_text working = "working"
state_text input_required = "input-required"
state_text completed = "completed"
state_text failed = "failed"
state_text canceled = "canceled"
state_text rejected = "rejected"

abbrev state_number : TaskState → ℕ
state_number submitted = 0
state_number working = 1
state_number input_required = 2
state_number completed = 3
state_number failed = 4
state_number canceled = 5
state_number rejected = 6

abbrev pub state_eq : TaskState → TaskState → Bool
state_eq a b = state_number a == state_number b

abbrev pub is_terminal : TaskState → Bool
is_terminal s =
    state_eq s completed || state_eq s failed || state_eq s canceled || state_eq s rejected

abbrev pub is_cancelable : TaskState → Bool
is_cancelable s = state_eq s submitted || state_eq s working || state_eq s input_required

-- `NewA2AError(err, msg)` unwraps to `err`.
abbrev pub new_a2a_error : Error → String → Error
new_a2a_error e msg = wrapped msg e

abbrev pub task_not_found : Error
task_not_found = foreign "task not found"

abbrev pub task_not_cancelable : Error
task_not_cancelable = foreign "task is not cancelable"

abbrev pub unsupported_operation : Error
unsupported_operation = foreign "unsupported operation"

abbrev pub skill_not_found : Error
skill_not_found = foreign "skill not found"

pub data Role : Type 0 where
  user agent : Role

-- What a part's data is asked for: a map, whose values are texts or something else.
pub data Value : Type 0 where
  text_value : String → Value
  other_value : Value

pub data PartData : Type 0 where
  no_data other_data : PartData
  map_data : List (String × Value) → PartData

pub record FileContent : Type 0 where
  pub mime_type : String
  pub data_text : String
  pub name : String

pub data PartType : Type 0 where
  text_part file_part data_part : PartType

pub record Part : Type 0 where
  pub part_type : PartType
  pub text : String
  pub file : Option FileContent
  pub data_value : PartData

pub record Message : Type 0 where
  pub role : Role
  pub parts : List Part

pub record Artifact : Type 0 where
  pub id : String
  pub name : String
  pub parts : List Part
  pub index : ℕ

-- Each event names the task, with the user last.
pub data TaskEvent : Type 0 where
  task_status_changed : KernelId → TaskState → TaskState → KernelId → TaskEvent
  task_artifact_created : KernelId → String → KernelId → TaskEvent

pub record TaskStatus : Type 0 where
  pub state : TaskState
  pub message : String
  pub updated_at : Time
  pub completed_at : Option Time

pub record Task : Type 0 where
  pub root : AggregateRoot TaskEvent
  pub open root use *
  pub status : TaskStatus
  pub history : List Message
  pub artifacts : List Artifact
  pub context_id : String
  pub user_id : KernelId
  pub skill_id : String

abbrev raise_event : TaskEvent → Task → Task
raise_event e t = record t { root = add_event e t.root }

unfoldable pub new_task : KernelId → KernelId → String → String → Time → Time → Time → Task
new_task id user_id skill_id context_id now created updated = record {
  root = new_aggregate_root id created updated;
  status = record { state = submitted; message = ""; updated_at = now; completed_at = none };
  history = [];
  artifacts = [];
  context_id = context_id;
  user_id = user_id;
  skill_id = skill_id;
}

-- `finished` is the reading for a terminal state, `now` the one for every state. The event is built
-- after the status has been replaced.
unfoldable pub transition : TaskState → String → Time → Time → Task → Outcome Task
transition state message finished now t =
    if is_terminal t.status.state
    then (
      t,
      some (
          new_a2a_error unsupported_operation
            (concat "task is already in terminal state: " (state_text t.status.state))),
    )
    else (let completed_at = if is_terminal state then some finished else t.status.completed_at in
        let moved : Task = record t {
          status = record {
            state = state;
            message = message;
            updated_at = now;
            completed_at = completed_at;
          };
        } in
        (raise_event (task_status_changed t.id moved.status.state state t.user_id) moved, none))

unfoldable pub add_message : Message → Task → Task
add_message m t = record t { history = t.history ++ (m ∷ []) }

unfoldable pub add_artifact : Artifact → Task → Task
add_artifact a t =
    raise_event (task_artifact_created t.id a.id t.user_id)
      (record t { artifacts = t.artifacts ++ (a ∷ []) })
