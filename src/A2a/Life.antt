-- ===== src/A2a/Life.antt =====
-- The states of a task under the methods of domain/a2a/task.go and the calls of service.go.
use mall.Base.{
  ℕ, suc, String, Bool, true, false, not, ◌||◌, ◌≡◌, refl, ap, ◌∙◌, Option, none, some, List, [],
  ◌∷◌, ◌++◌, arith, is_none, Bool-cases, inl, inr,
}
use mall.Kernel.{KernelId, Time, Error, Outcome, Result, ok, err}
use mall.A2a.Task.{
  Task, Message, Artifact, TaskState, task_status_changed, new_task, transition, add_message,
  add_artifact, is_terminal, state_eq, input_required,
}
use mall.A2a.Skills.{AgentService, AgentWorld, Answer, SkillHandler, detect_skill, handler_of}
use mall.A2a.Service.{
  close_task, start_task, send_new, send_to, saved_or_not, follow_up, with_task, send_message,
  send_message_to_task,
}

pub data TaskCall : Type 0 where
  moves : TaskState → String → Time → Time → TaskCall
  tells : Message → TaskCall
  makes : Artifact → TaskCall

abbrev pub perform_task : TaskCall → Task → Task
perform_task (moves s m finished now) t = (transition s m finished now t).0
perform_task (tells m) t = add_message m t
perform_task (makes a) t = add_artifact a t

abbrev pub run_task : List TaskCall → Task → Task
run_task [] t = t
run_task (c ∷ cs) t = run_task cs (perform_task c t)

-- A task has the time of its completion exactly in a terminal state.
abbrev pub IsDated : Task → Type 0
IsDated t = is_none t.status.completed_at ≡ not (is_terminal t.status.state)

transition-IsDated :
    (s : TaskState) (m : String) (finished now : Time) (t : Task)
    → IsDated t
    → IsDated (transition s m finished now t).0
unfolding transition
transition-IsDated s m finished now t h = ground (arith, h)

perform_task-IsDated : (c : TaskCall) (t : Task) → IsDated t → IsDated (perform_task c t)
unfolding add_message add_artifact
perform_task-IsDated (moves s m finished now) t h = transition-IsDated s m finished now t h
perform_task-IsDated (tells m) t h = h
perform_task-IsDated (makes a) t h = h

run_task-IsDated_from : (cs : List TaskCall) (t : Task) → IsDated t → IsDated (run_task cs t)
run_task-IsDated_from [] t h = h
run_task-IsDated_from (c ∷ cs) t h =
    run_task-IsDated_from cs (perform_task c t) (perform_task-IsDated c t h)

-- Whatever is called on a new task, in any sequence, with or without success: it has the time of
-- its completion exactly when its state is completed, failed, canceled or rejected.
pub run_task-IsDated :
    (id user_id : KernelId) (skill_id context_id : String) (now created updated : Time)
    (cs : List TaskCall)
    → IsDated (run_task cs (new_task id user_id skill_id context_id now created updated))
unfolding new_task
run_task-IsDated id user_id skill_id context_id now created updated cs =
    run_task-IsDated_from cs _ refl

perform_task_closed :
    (c : TaskCall) (t : Task)
    → is_terminal t.status.state ≡ true
    → (perform_task c t).status ≡ t.status
unfolding transition add_message add_artifact
perform_task_closed (moves s m finished now) t h = ground (arith, h)
perform_task_closed (tells m) t h = refl
perform_task_closed (makes a) t h = refl

-- The status of a task in a terminal state, with its message and times, never changes again.
pub run_task_closed :
    (cs : List TaskCall) (t : Task)
    → is_terminal t.status.state ≡ true
    → (run_task cs t).status ≡ t.status
run_task_closed [] t h = refl
run_task_closed (c ∷ cs) t h =
    let same = perform_task_closed c t h in
    run_task_closed cs (perform_task c t) (ap (λ s. is_terminal s.state) same ∙ h) ∙ same

-- Every move that succeeds is announced as one from the new state to the new state.
pub transition_announced :
    (s : TaskState) (m : String) (finished now : Time) (t : Task)
    → (transition s m finished now t).1 ≡ none
    → (transition s m finished now t).0.events
      ≡ t.events ++ (task_status_changed t.id s s t.user_id ∷ [])
unfolding transition
transition_announced s m finished now t done = ground (arith, done)

-- A task that is over, or waits for its user.
abbrev pub is_settled : Task → Bool
is_settled t = is_terminal t.status.state || state_eq t.status.state input_required

module _ {S P G X : Type 0} (svc : AgentService S P G X) where
  abbrev Settles : Answer Task → Type 0
  Settles a = (t : Task) → a.0 ≡ some t → is_settled t ≡ true

  close_task-Settles :
      (note : String) (o : Outcome Task) (finished now : Time) (w : AgentWorld S P G X)
      → Settles (close_task svc note o finished now w).0
  unfolding close_task transition
  close_task-Settles note (t, none) finished now w u h = ground (arith, h)
  close_task-Settles note (t, some e) finished now w u h = ground (arith, h)

  start_task-Settles :
      (o : Option (SkillHandler X)) (t : Task) (message : Message) (clock : ℕ → Time)
      (w : AgentWorld S P G X)
      → is_terminal t.status.state ≡ false
      → Settles (start_task svc o t message clock w).0
  unfolding transition
  start_task-Settles none t message clock w live = λ u h. ground (arith, live, h)
  start_task-Settles (some handle) t message clock w live =
      close_task-Settles _ _ (clock 2) (clock 3) _

  saved_or_not-Settles :
      (o : Option Error) (go : AgentWorld S P G X → Answer Task × AgentWorld S P G X)
      (w : AgentWorld S P G X)
      → ((v : AgentWorld S P G X) → Settles (go v).0)
      → Settles (saved_or_not svc o go w).0
  saved_or_not-Settles (some e) go w settles = λ t h. absurd (ground (arith, h))
  saved_or_not-Settles none go w settles = settles w

  send_new-Settles :
      (r : Result KernelId) (user_id : KernelId) (message : Message) (context_id : String)
      (clock : ℕ → Time) (w : AgentWorld S P G X)
      → Settles (send_new svc r user_id message context_id clock w).0
  unfolding new_task add_message
  send_new-Settles (err e) user_id message context_id clock w = λ t h. absurd (ground (arith, h))
  send_new-Settles (ok id) user_id message context_id clock w = saved_or_not-Settles _ _ _ (λ v.
      start_task-Settles
        (handler_of (detect_skill svc.to_lower svc.skills svc.skills_again message) svc.skills) _
        message (λ n. clock (suc (suc (suc n)))) v refl)

  -- Whatever the skill's handler does to the task, with or without an error, and whatever the saves
  -- return: a task that SendMessage returns is over (completed, failed, canceled or rejected) or
  -- waits for its user's input; it is never left as submitted or working.
  pub send_message-Settles :
      (user_id : KernelId) (message : Message) (context_id : String) (clock : ℕ → Time)
      (w : AgentWorld S P G X) (t : Task)
      → (send_message svc user_id message context_id clock w).0.0 ≡ some t
      → is_settled t ≡ true
  unfolding send_message
  send_message-Settles user_id message context_id clock w t h =
      send_new-Settles (svc.next_id w.ids).0 user_id message context_id clock _ t h

  follow_up-Settles :
      (o : Option (SkillHandler X)) (t : Task) (message : Message) (finished now : Time)
      (w : AgentWorld S P G X)
      → Settles (follow_up svc o t message finished now w).0
  follow_up-Settles none t message finished now w = close_task-Settles _ _ finished now w
  follow_up-Settles (some handle) t message finished now w = close_task-Settles _ _ finished now _

  send_to-Settles :
      (message : Message) (clock : ℕ → Time) (t : Task) (w : AgentWorld S P G X)
      → Settles (send_to svc message clock t w).0
  send_to-Settles message clock t w = elim (Bool-cases (is_terminal t.status.state)) [
    | inl over ↦ λ u h. absurd (ground (arith, over, h))
    | inr live ↦
        rw live
          (follow_up-Settles (handler_of t.skill_id svc.skills) _ message (clock 2) (clock 3) _)
  ]

  with_task-Settles :
      (r : Result (Option Task)) (go : Task → AgentWorld S P G X → Answer Task × AgentWorld S P G X)
      (w : AgentWorld S P G X)
      → ((t : Task) → Settles (go t w).0)
      → Settles (with_task svc r go w).0
  with_task-Settles (err e) go w settles = λ t h. absurd (ground (arith, h))
  with_task-Settles (ok none) go w settles = λ t h. absurd (ground (arith, h))
  with_task-Settles (ok (some u)) go w settles = settles u

  -- So too the task that a follow-up returns.
  pub send_message_to_task-Settles :
      (id : KernelId) (message : Message) (clock : ℕ → Time) (w : AgentWorld S P G X) (t : Task)
      → (send_message_to_task svc id message clock w).0.0 ≡ some t
      → is_settled t ≡ true
  unfolding send_message_to_task
  send_message_to_task-Settles id message clock w t h =
      with_task-Settles (svc.find_task id w.tasks) (send_to svc message clock) w
        (λ u. send_to-Settles message clock u w) t h
