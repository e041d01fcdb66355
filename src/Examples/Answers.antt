-- ===== src/Examples/Answers.antt =====
-- Requests to the handlers of internal/api/task_handler.go.
use mini_bk.Prelude.{◌≡◌, refl, none}
use mini_bk.Prelude.Int.{pos}
use mini_bk.Queue.InMem.{in_mem}
use mini_bk.Store.TaskTable.{find_row}
use mini_bk.Api.{get_task_handler, get_task_log, cancel_task_handler, rerun_task_handler}
use mini_bk.Api.Missing.{no_row_reply, missing_task_answers}
use mini_bk.Examples.Sounds.{service, same_text}

-- There is no task `z`.
missing_task_answers_example :
    ((get_task_handler in_mem "z" service).0 ≡ no_row_reply)
    × ((get_task_log in_mem "z" service).0 ≡ no_row_reply)
    × ((cancel_task_handler in_mem (pos 9) none "z" service).0 ≡ no_row_reply)
    × ((rerun_task_handler in_mem same_text (pos 9) "e" none "z" service).0 ≡ no_row_reply)
unfolding find_row
missing_task_answers_example =
    missing_task_answers in_mem "z" service same_text (pos 9) "e" none refl refl
