-- ===== src/EditQueues.antt =====
-- internal/backend/forwarder/patch_edit_tool.go: an edit of a file that another edit is still at work
-- on waits in the file's queue. A table of a stream without queues (nil in the code) is empty here,
-- and the lock around each operation makes it one step.
pub mod Arrivals
use cursor_byok_lite.Prelude.{
  ℕ, ◌≡◌, refl, Bool, List, [], ◌∷◌, ◌++◌, Option, none, some, if◌then◌else◌, on_found,
}
use cursor_byok_lite.Prelude.Int.{ℤ}
use cursor_byok_lite.Prelude.Text.{Text, is_empty, trim_space}
use cursor_byok_lite.Prelude.Store.{lookup, insert, erase}

pub record PatchEditArgs : Type 0 where
  pub path : Text
  pub old_string : Text
  pub new_string : Text
  pub new_string_set : Bool
  pub replace_all : Bool
  pub replace_all_set : Bool

pub record PendingPatchEditPayload : Type 0 where
  pub tool_name : Text
  pub raw_args_json : Text
  pub args_decode_failed : Bool
  pub args : PatchEditArgs
  pub resolved_path : Text
  pub before_content : Text
  pub after_content : Text
  pub diff_string : Text
  pub lines_added : ℤ
  pub lines_removed : ℤ
  pub message : Text

pub record QueuedPatchEditOperation : Type 0 where
  pub tool_call_id : Text
  pub model_call_id : Text
  pub provider_pass : ℤ
  pub reasoning_content : Text
  pub reasoning_signature : Text
  pub reasoning_signature_source : Text
  pub payload : PendingPatchEditPayload

-- the fields of the stream that the queues use
pub record QueueState : Type 0 where
  pub patch_edit_queues : List (Text × List QueuedPatchEditOperation)
  pub updated_at : ℕ

abbrev pub patch_edit_queue_key : Text → Text
patch_edit_queue_key path = trim_space path

-- a queue of the table, which is empty for a key that has none
unfoldable pub queue_at :
    Text → List (Text × List QueuedPatchEditOperation) → List QueuedPatchEditOperation
queue_at key queues = on_found (lookup key queues) [] (λ queue. queue)

unfoldable pub enqueue_patch_edit_operation :
    ℕ → QueueState → Text → QueuedPatchEditOperation → QueueState
enqueue_patch_edit_operation now stream key operation =
    let queue = queue_at key stream.patch_edit_queues in
    if is_empty (trim_space key) then stream else record {
      patch_edit_queues = insert key (queue ++ operation ∷ []) stream.patch_edit_queues;
      updated_at = now;
    }

-- the queue of the key, and what is taken from it
unfoldable pub take_from_queue :
    ℕ
    → Text
    → List QueuedPatchEditOperation
    → QueueState
    → QueueState × Option QueuedPatchEditOperation
take_from_queue now key [] stream =
    (record stream { patch_edit_queues = erase key stream.patch_edit_queues }, none)
take_from_queue now key (next ∷ []) stream =
    (record { patch_edit_queues = erase key stream.patch_edit_queues; updated_at = now }, some next)
take_from_queue now key (next ∷ second ∷ remaining) stream = (
  record {
    patch_edit_queues = insert key (second ∷ remaining) stream.patch_edit_queues;
    updated_at = now;
  },
  some next,
)

unfoldable pub take_next_queued_patch_edit_operation :
    ℕ → QueueState → Text → QueueState × Option QueuedPatchEditOperation
take_next_queued_patch_edit_operation now stream path =
    let key = patch_edit_queue_key path in
    if is_empty key
    then (stream, none)
    else take_from_queue now key (queue_at key stream.patch_edit_queues) stream

-- What is asked of the queues: an edit that waits for its file, and the next one of a file.
pub data QueueRequest : Type 0 where
  wait_for : ℕ → Text → QueuedPatchEditOperation → QueueRequest
  next_of : ℕ → Text → QueueRequest

-- The operations that the requests are answered with, in order.
unfoldable pub answers : List QueueRequest → QueueState → List (Option QueuedPatchEditOperation)
answers [] stream = []
answers (wait_for now path operation ∷ requests) stream =
    answers requests (enqueue_patch_edit_operation now stream (patch_edit_queue_key path) operation)
answers (next_of now path ∷ requests) stream =
    let (after, next) = take_next_queued_patch_edit_operation now stream path in
    next ∷ answers requests after
