-- ===== src/Examples/Queues.antt =====
-- patch_edit_tool.go: edits of two files that wait, and are taken.
use cursor_byok_lite.Prelude.{◌≡◌, false, List, [], ◌∷◌, some, none, true, refl}
use cursor_byok_lite.Prelude.Int.{pos}
use cursor_byok_lite.Prelude.Text.{Text, codes, str_eq, trim_space}
use cursor_byok_lite.EditQueues.{
  QueuedPatchEditOperation, QueueRequest, wait_for, next_of, answers, enqueue_patch_edit_operation,
  take_next_queued_patch_edit_operation, take_from_queue, queue_at,
}
use cursor_byok_lite.EditQueues.Arrivals.{expected_answers, answers_lem}
use cursor_byok_lite.Prelude.Store.{lookup, insert, erase}

abbrev edit_of : Text → Text → QueuedPatchEditOperation
edit_of call file = record {
  tool_call_id = call;
  model_call_id = codes "m";
  provider_pass = pos 1;
  reasoning_content = [];
  reasoning_signature = [];
  reasoning_signature_source = [];
  payload = record {
    tool_name = codes "PatchEdit";
    raw_args_json = [];
    args_decode_failed = false;
    args = record {
      path = file;
      old_string = codes "a";
      new_string = codes "b";
      new_string_set = true;
      replace_all = false;
      replace_all_set = false;
    };
    resolved_path = file;
    before_content = [];
    after_content = [];
    diff_string = [];
    lines_added = pos 0;
    lines_removed = pos 0;
    message = [];
  };
}

abbrev requests : List QueueRequest
requests =
    wait_for 1 (codes " f") (edit_of (codes "1") (codes "f"))
    ∷ wait_for 2 (codes "g") (edit_of (codes "2") (codes "g"))
    ∷ wait_for 3 (codes "f") (edit_of (codes "3") (codes "f"))
    ∷ next_of 4 (codes "f")
    ∷ next_of 5 (codes "f ")
    ∷ next_of 6 (codes "f")
    ∷ next_of 7 (codes "g")
    ∷ []

answers_lem_example :
    answers requests (record { patch_edit_queues = []; updated_at = 0 })
    ≡ expected_answers requests []
answers_lem_example = answers_lem requests 0

queues_test :
    answers requests (record { patch_edit_queues = []; updated_at = 0 })
    ≡ some (edit_of (codes "1") (codes "f"))
      ∷ some (edit_of (codes "3") (codes "f"))
      ∷ none
      ∷ some (edit_of (codes "2") (codes "g"))
      ∷ []
unfolding answers enqueue_patch_edit_operation take_next_queued_patch_edit_operation take_from_queue
    queue_at lookup insert erase str_eq trim_space
queues_test = refl
