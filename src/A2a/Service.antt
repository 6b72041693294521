-- ===== src/A2a/Service.antt =====
-- domain/a2a/service.go and push_config.go. A call that returns a task and an error returns either,
-- both or none of them. A skill's handler may change the task. Listing is left out.
use Prim.Native.String.{◌++◌ as concat}
use mall.Base.{ℕ, suc, String, not, ◌&&◌, Option, none, some, List, if◌then◌else◌, length}
use mall.Kernel.{KernelId, Time, Result, ok, err, Error, Outcome}
use mall.A2a.Task.{
  Task, Message, Part, TaskState, new_task, transition, add_message, add_artifact, is_terminal,
  is_cancelable, state_eq, working, input_required, completed, failed, canceled, new_a2a_error,
  task_not_found, task_not_cancelable, unsupported_operation, skill_not_found,
}
use mall.A2a.Skills.{
  SkillHandler, AuthInfo, PushNotificationConfig, new_push_notification_config, AgentService,
  AgentWorld, Answer, detect_skill, handler_of,
}

module _ {S P G X : Type 0} (svc : AgentService S P G X) where
  abbrev World : Type 0
  World = AgentWorld S P G X

  -- `_ = s.tasks.Save(ctx, task)`
  abbrev save_quietly : Task → World → World
  save_quietly t w = record w { tasks = (svc.save_task t w.tasks).1 }

  -- `_ = task.Transition(state, message)` and the saving.
  abbrev move_quietly : TaskState → String → Time → Time → Task → World → Task × World
  move_quietly state message finished now t w =
      let t' = (transition state message finished now t).0 in (t', save_quietly t' w)

  abbrev done_unless_waiting : String → Time → Time → Task → Task
  done_unless_waiting note finished now t =
      if not (is_terminal t.status.state) && not (state_eq t.status.state input_required)
      then (transition completed note finished now t).0
      else t

  -- What follows the handler.
  unfoldable pub close_task : String → Outcome Task → Time → Time → World → Answer Task × World
  close_task note (t, some e) finished now w =
      let (t', w') = move_quietly failed (svc.error_text e) finished now t w in
      ((some t', none), w')
  close_task note (t, none) finished now w =
      let t' = done_unless_waiting note finished now t in ((some t', none), save_quietly t' w)

  abbrev run_handler :
      SkillHandler X → String → Task → Message → Time → Time → World → Answer Task × World
  run_handler handle note t message finished now w =
      let (outcome, x) = handle t message w.outside in
      close_task note outcome finished now (record w { outside = x })

  -- A stored new task.
  abbrev pub start_task :
      Option (SkillHandler X) → Task → Message → (ℕ → Time) → World → Answer Task × World
  start_task none t message clock w =
      let (t', w') =
        move_quietly failed (concat "no handler for skill: " t.skill_id) (clock 0) (clock 1) t w in
      (
        (
          some t',
          some (new_a2a_error skill_not_found (concat "no handler for skill: " t.skill_id)),
        ),
        w',
      )
  start_task (some handle) t message clock w =
      let (t', w') = move_quietly working "processing" (clock 0) (clock 1) t w in
      run_handler handle "task completed successfully" t' message (clock 2) (clock 3) w'

  abbrev pub saved_or_not :
      Option Error → (World → Answer Task × World) → World → Answer Task × World
  saved_or_not (some e) go w = ((none, some e), w)
  saved_or_not none go w = go w

  abbrev pub send_new :
      Result KernelId → KernelId → Message → String → (ℕ → Time) → World → Answer Task × World
  send_new (err e) user_id message context_id clock w =
      ((none, some (new_a2a_error unsupported_operation "failed to generate task id")), w)
  send_new (ok id) user_id message context_id clock w =
      let skill_id = detect_skill svc.to_lower svc.skills svc.skills_again message in
      let t =
        add_message message
          (new_task id user_id skill_id context_id (clock 0) (clock 1) (clock 2)) in
      saved_or_not (svc.save_task t w.tasks).0
        (start_task (handler_of skill_id svc.skills) t message (λ n. clock (suc (suc (suc n)))))
        (save_quietly t w)

  unfoldable pub send_message :
      KernelId → Message → String → (ℕ → Time) → World → Answer Task × World
  send_message user_id message context_id clock w =
      let (id, g) = svc.next_id w.ids in
      send_new id user_id message context_id clock (record w { ids = g })

  -- A look-up, and what follows a task that was found.
  abbrev pub with_task :
      {A : Type 0}
      → Result (Option Task)
      → (Task → World → Answer A × World)
      → World
      → Answer A × World
  with_task (err e) go w = ((none, some e), w)
  with_task (ok none) go w = ((none, some (new_a2a_error task_not_found "task not found")), w)
  with_task (ok (some t)) go w = go t w

  -- Without a handler the task goes on to its end.
  abbrev pub follow_up :
      Option (SkillHandler X) → Task → Message → Time → Time → World → Answer Task × World
  follow_up none t message finished now w =
      close_task "follow-up completed" (t, none) finished now w
  follow_up (some handle) t message finished now w =
      run_handler handle "follow-up completed" t message finished now w

  abbrev pub send_to : Message → (ℕ → Time) → Task → World → Answer Task × World
  send_to message clock t w =
      if is_terminal t.status.state
      then ((none, some (new_a2a_error unsupported_operation "task is in terminal state")), w)
      else (let (t', w') =
            move_quietly working "processing follow-up" (clock 0) (clock 1) (add_message message t)
              w in
          follow_up (handler_of t.skill_id svc.skills) t' message (clock 2) (clock 3) w')

  unfoldable pub send_message_to_task :
      KernelId → Message → (ℕ → Time) → World → Answer Task × World
  send_message_to_task task_id message clock w =
      with_task (svc.find_task task_id w.tasks) (send_to message clock) w

  unfoldable pub get_task : KernelId → World → Answer Task × World
  get_task id w = with_task (svc.find_task id w.tasks) (λ t w. ((some t, none), w)) w

  abbrev cancel_found : Time → Time → Task → World → Answer Task × World
  cancel_found finished now t w =
      if not (is_cancelable t.status.state)
      then ((none, some (new_a2a_error task_not_cancelable "task is not cancelable")), w)
      else (let (t', w') = move_quietly canceled "canceled by user" finished now t w in
          ((some t', none), w'))

  unfoldable pub cancel_task : KernelId → Time → Time → World → Answer Task × World
  cancel_task id finished now w = with_task (svc.find_task id w.tasks) (cancel_found finished now) w

  -- `return s.tasks.Save(ctx, task)`
  abbrev save_last : Task → World → Answer (Unit {0}) × World
  save_last t w = let (e, s) = svc.save_task t w.tasks in ((none, e), record w { tasks = s })

  -- `stamp` is the formatted reading of the clock.
  unfoldable pub add_artifact_to_task :
      KernelId → String → List Part → String → World → Answer (Unit {0}) × World
  add_artifact_to_task task_id name parts stamp w =
      with_task (svc.find_task task_id w.tasks)
        (λ t. save_last (
          add_artifact
            (record {
              id = concat name (concat "-" stamp);
              name = name;
              parts = parts;
              index = length t.artifacts;
            })
            t))
        w

  unfoldable pub append_message : KernelId → Message → World → Answer (Unit {0}) × World
  append_message task_id message w =
      with_task (svc.find_task task_id w.tasks) (λ t. save_last (add_message message t)) w

  abbrev config_saved :
      Option Error × P → PushNotificationConfig → World → Answer PushNotificationConfig × World
  config_saved (none, p) c w = ((some c, none), record w { configs = p })
  config_saved (some e, p) c w = ((none, some e), record w { configs = p })

  abbrev config_made :
      Result KernelId
      → KernelId
      → String
      → AuthInfo
      → Time
      → Time
      → World
      → Answer PushNotificationConfig × World
  config_made (err e) task_id url auth created updated w =
      ((none, some (new_a2a_error unsupported_operation "failed to generate config id")), w)
  config_made (ok id) task_id url auth created updated w =
      let c = new_push_notification_config id task_id url auth created updated in
      config_saved (svc.save_config c w.configs) c w

  unfoldable pub create_push_notification_config :
      KernelId → String → AuthInfo → Time → Time → World → Answer PushNotificationConfig × World
  create_push_notification_config task_id url auth created updated w =
      with_task (svc.find_task task_id w.tasks)
        (λ t w.
          let (id, g) = svc.next_id w.ids in
          config_made id task_id url auth created updated (record w { ids = g }))
        w

  abbrev config_found : Result (Option PushNotificationConfig) → Answer PushNotificationConfig
  config_found (err e) = (none, some e)
  config_found (ok none) =
      (none, some (new_a2a_error task_not_found "push notification config not found"))
  config_found (ok (some c)) = (some c, none)

  unfoldable pub get_push_notification_config :
      KernelId → World → Answer PushNotificationConfig × World
  get_push_notification_config id w = (config_found (svc.find_config id w.configs), w)

  unfoldable pub delete_push_notification_config : KernelId → World → Option Error × World
  delete_push_notification_config id w =
      let (e, p) = svc.delete_config id w.configs in (e, record w { configs = p })
