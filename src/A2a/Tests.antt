-- ===== src/A2a/Tests.antt =====
-- The task theorems at an agent with one skill, which asks for more input or fails.
use mall.Base.{◌≡◌, refl, true, none, some, List, [], ◌∷◌, pos, ℕ, contains_text, after_prefix}
use mall.Kernel.{ok}
use mall.A2a.Task.{
  Task, Message, new_task, transition, add_message, user, text_part, no_data, working, completed,
  input_required,
}
use mall.A2a.Skills.{Answer, AgentService, AgentWorld, SkillHandler, detect_skill, asked_by}
use mall.A2a.Service.{send_message, close_task}
use mall.A2a.Life.{
  TaskCall, moves, tells, run_task, IsDated, run_task-IsDated, is_settled, send_message-Settles,
}

abbrev hello : Message
hello = record {
  role = user;
  parts = (record { part_type = text_part; text = "cart"; file = none; data_value = no_data }) ∷ [];
}

abbrev fresh : Task
fresh = new_task (pos 1) (pos 2) "cart" "" 10 11 12

abbrev moved : List TaskCall
moved = moves working "processing" 20 21 ∷ tells hello ∷ moves completed "done" 22 23 ∷ []

run_task-IsDated_example : IsDated (run_task moved fresh)
run_task-IsDated_example = run_task-IsDated (pos 1) (pos 2) "cart" "" 10 11 12 moved

-- Asks the user for more.
abbrev ask_more : SkillHandler (Unit {0})
ask_more t m x = (transition input_required "which one?" 30 31 t, x)

abbrev shop : AgentService Task (Unit {0}) ℕ (Unit {0})
shop = record {
  find_task = λ id t. ok (some t);
  save_task = λ t s. (none, t);
  save_config = λ c p. (none, p);
  find_config = λ id p. ok none;
  delete_config = λ id p. (none, p);
  next_id = λ n. (ok (pos n), n);
  skills = ("cart", ask_more) ∷ [];
  skills_again = "cart" ∷ [];
  error_text = λ e. "failed";
  to_lower = λ s. s;
}

abbrev idle : AgentWorld Task (Unit {0}) ℕ (Unit {0})
idle = record { tasks = fresh; configs = tt; ids = 9; outside = tt }

abbrev sent : Answer Task × AgentWorld Task (Unit {0}) ℕ (Unit {0})
sent = send_message shop (pos 2) hello "" (λ n. n) idle

abbrev stored_after : Task
stored_after = sent.1.tasks

was_sent : sent.0.0 ≡ some stored_after
unfolding send_message detect_skill asked_by close_task new_task add_message transition
    contains_text after_prefix
was_sent = refl

send_message-Settles_example : is_settled stored_after ≡ true
send_message-Settles_example =
    send_message-Settles shop (pos 2) hello "" (λ n. n) idle stored_after was_sent

waits_for_input : stored_after.status.state ≡ input_required
unfolding send_message detect_skill asked_by close_task new_task add_message transition
    contains_text after_prefix
waits_for_input = refl
