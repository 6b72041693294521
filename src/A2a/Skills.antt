-- ===== src/A2a/Skills.antt =====
-- domain/a2a/service.go and push_config.go: what the service is given, and the skill that a message
-- asks for.
use mall.Base.{String, Option, none, some, List, [], ◌∷◌, if◌then◌else◌, str_eq, contains_text}
use mall.Kernel.{KernelId, Time, Result, Error, Outcome, AggregateRoot, new_aggregate_root}
use mall.A2a.Task.{
  Task, Message, Part, PartData, PartType, Value, text_part, file_part, data_part, no_data,
  other_data, map_data, text_value, other_value,
}

-- `Handle(ctx, task, message)`
abbrev pub SkillHandler : Type 0 → Type 0
SkillHandler X = Task → Message → X → Outcome Task × X

pub record AuthInfo : Type 0 where
  pub scheme : String
  pub credentials : String

pub record PushNotificationConfig : Type 0 where
  pub root : AggregateRoot (Unit {0})
  pub task_id : KernelId
  pub url : String
  pub auth_info : AuthInfo

unfoldable pub new_push_notification_config :
    KernelId → KernelId → String → AuthInfo → Time → Time → PushNotificationConfig
new_push_notification_config id task_id url auth created updated = record {
  root = new_aggregate_root id created updated;
  task_id = task_id;
  url = url;
  auth_info = auth;
}

-- A look-up may find nothing and return no error. The skills stand in the order in which a call
-- walks the map first, and their names in the order of its second walk.
pub record AgentService (S P G X : Type 0) : Type 0 where
  pub find_task : KernelId → S → Result (Option Task)
  pub save_task : Task → S → Option Error × S
  pub save_config : PushNotificationConfig → P → Option Error × P
  pub find_config : KernelId → P → Result (Option PushNotificationConfig)
  pub delete_config : KernelId → P → Option Error × P
  pub next_id : G → Result KernelId × G
  pub skills : List (String × SkillHandler X)
  pub skills_again : List String
  -- the text of an error, and strings.ToLower
  pub error_text : Error → String
  pub to_lower : String → String

pub record AgentWorld (S P G X : Type 0) : Type 0 where
  pub tasks : S
  pub configs : P
  pub ids : G
  pub outside : X

-- What a call returns.
abbrev pub Answer : Type 0 → Type 0
Answer A = Option A × Option Error

-- What the parts of a message ask for.
pub data Asked : Type 0 where
  asked_text asked_skill : String → Asked

abbrev skill_among : List (String × Value) → Option String
skill_among [] = none
skill_among ((k, text_value s) ∷ m) =
    let rest = skill_among m in if str_eq k "skill" then some s else rest
skill_among ((k, other_value) ∷ m) =
    let rest = skill_among m in if str_eq k "skill" then none else rest

abbrev skill_in : PartData → Option String
skill_in no_data = none
skill_in other_data = none
skill_in (map_data m) = skill_among m

abbrev asked_or : Option String → Asked → Asked
asked_or none rest = rest
asked_or (some s) rest = asked_skill s

abbrev ask_part : PartType → Part → Asked → Asked
ask_part text_part p rest = asked_text p.text
ask_part data_part p rest = asked_or (skill_in p.data_value) rest
ask_part file_part p rest = rest

-- The loop over the parts.
unfoldable pub asked_by : List Part → Asked
asked_by [] = asked_text ""
asked_by (p ∷ ps) = ask_part p.part_type p (asked_by ps)

abbrev first_skill : List String → String
first_skill [] = "unknown"
first_skill (id ∷ ids) = id

abbrev named_or_first : Option String → List String → String
named_or_first (some id) ids = id
named_or_first none ids = first_skill ids

module _ {X : Type 0} where
  -- The first skill whose name stands in the text.
  abbrev named_in : String → List (String × SkillHandler X) → Option String
  named_in text [] = none
  named_in text ((id, h) ∷ skills) =
      let rest = named_in text skills in if contains_text text id then some id else rest

  abbrev skill_asked :
      (String → String) → List (String × SkillHandler X) → List String → Asked → String
  skill_asked lower skills ids (asked_skill s) = s
  skill_asked lower skills ids (asked_text text) = named_or_first (named_in (lower text) skills) ids

  -- `ids` are the names in the order of the second walk.
  unfoldable pub detect_skill :
      (String → String) → List (String × SkillHandler X) → List String → Message → String
  detect_skill lower skills ids message = skill_asked lower skills ids (asked_by message.parts)

  abbrev pub handler_of : String → List (String × SkillHandler X) → Option (SkillHandler X)
  handler_of id [] = none
  handler_of id ((k, h) ∷ skills) =
      let rest = handler_of id skills in if str_eq k id then some h else rest
