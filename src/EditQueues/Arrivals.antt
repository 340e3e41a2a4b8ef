-- ===== src/EditQueues/Arrivals.antt =====
-- The queues against one list of the edits that wait, in the order in which they came.
use cursor_byok_lite.Prelude.{
  ℕ, ◌≡◌, refl, sym, ap, ◌∙◌, List, [], ◌∷◌, ◌++◌, Option, none, some, inl, inr, arith,
  if◌then◌else◌, drop, append-nil, Bool-cases,
}
use cursor_byok_lite.Prelude.Text.{Text, str_eq, str_eq_iff, is_empty, trim_space, trim_space_idem}
use cursor_byok_lite.Prelude.Store.{lookup, insert, erase, lookup-insert, lookup-erase}
use cursor_byok_lite.EditQueues.{
  QueuedPatchEditOperation, QueueState, queue_at, enqueue_patch_edit_operation, take_from_queue,
  take_next_queued_patch_edit_operation, QueueRequest, wait_for, next_of, answers,
}

abbrev Arrivals : Type 0
Arrivals = List (Text × QueuedPatchEditOperation)

-- the edits of a file among them
waiting : Text → Arrivals → List QueuedPatchEditOperation
waiting key [] = []
waiting key ((file, operation) ∷ arrivals) =
    let rest = waiting key arrivals in if str_eq file key then operation ∷ rest else rest

-- the first edit of a file, and what it leaves
remove_first : Text → Arrivals → Arrivals × Option QueuedPatchEditOperation
remove_first key [] = ([], none)
remove_first key ((file, operation) ∷ arrivals) =
    let (left, found) = remove_first key arrivals in
    if str_eq file key then (arrivals, some operation) else ((file, operation) ∷ left, found)

-- a file without a name has no edits
first_of_file : Text → Arrivals → Arrivals × Option QueuedPatchEditOperation
first_of_file key arrivals =
    let unnamed : Arrivals × Option QueuedPatchEditOperation = (arrivals, none) in
    if is_empty key then unnamed else remove_first key arrivals

-- What one list of all edits answers: an edit goes to its end, and the next edit of a file is the first
-- of that file. A file without a name has no edits.
pub expected_answers : List QueueRequest → Arrivals → List (Option QueuedPatchEditOperation)
expected_answers [] arrivals = []
expected_answers (wait_for now path operation ∷ requests) arrivals =
    let file = trim_space path in
    expected_answers requests
      (if is_empty file then arrivals else arrivals ++ (file, operation) ∷ [])
expected_answers (next_of now path ∷ requests) arrivals =
    let (left, found) = first_of_file (trim_space path) arrivals in
    found ∷ expected_answers requests left

first_of : List QueuedPatchEditOperation → Option QueuedPatchEditOperation
first_of [] = none
first_of (operation ∷ queue) = some operation

Represents : List (Text × List QueuedPatchEditOperation) → Arrivals → Type 0
Represents queues arrivals = (key : Text) → queue_at key queues ≡ waiting key arrivals

waiting-append :
    (key : Text) (a b : Arrivals) → waiting key (a ++ b) ≡ waiting key a ++ waiting key b
unfolding waiting
waiting-append key [] b = refl
waiting-append key ((file, operation) ∷ a) b = elim (Bool-cases (str_eq file key)) [
  | inl e ↦ rw e (ap (λ r. operation ∷ r) (waiting-append key a b))
  | inr e ↦ rw e (waiting-append key a b)
]

remove_first-first_of :
    (key : Text) (a : Arrivals) → (remove_first key a).1 ≡ first_of (waiting key a)
unfolding remove_first waiting first_of
remove_first-first_of key [] = refl
remove_first-first_of key ((file, operation) ∷ a) = elim (Bool-cases (str_eq file key)) [
  | inl e ↦ rw e refl
  | inr e ↦ rw e (remove_first-first_of key a)
]

waiting-remove_first :
    (key other : Text) (a : Arrivals)
    → waiting other (remove_first key a).0
      ≡ (if str_eq key other then drop 1 (waiting other a) else waiting other a)
unfolding remove_first waiting
waiting-remove_first key other [] = ground arith
waiting-remove_first key other ((file, operation) ∷ a) = ground (
  arith,
  str_eq_iff file key,
  str_eq_iff file other,
  str_eq_iff key other,
  waiting-remove_first key other a,
)

queue_at-insert :
    (key other : Text) (queue : List QueuedPatchEditOperation)
    (queues : List (Text × List QueuedPatchEditOperation))
    → queue_at other (insert key queue queues)
      ≡ (if str_eq key other then queue else queue_at other queues)
unfolding queue_at
queue_at-insert key other queue queues = elim (Bool-cases (str_eq key other)) [
  | inl e ↦ rw (lookup-insert, e) refl
  | inr e ↦ rw (lookup-insert, e) refl
]

queue_at-erase :
    (key other : Text) (queues : List (Text × List QueuedPatchEditOperation))
    → queue_at other (erase key queues) ≡ (if str_eq key other then [] else queue_at other queues)
unfolding queue_at
queue_at-erase key other queues = elim (Bool-cases (str_eq key other)) [
  | inl e ↦ rw (lookup-erase, e) refl
  | inr e ↦ rw (lookup-erase, e) refl
]

-- An edit that waits.
enqueue-Represents :
    (now : ℕ) (stream : QueueState) (path : Text) (operation : QueuedPatchEditOperation)
    (arrivals : Arrivals)
    → Represents stream.patch_edit_queues arrivals
    → (let key = trim_space path in
        let after = enqueue_patch_edit_operation now stream key operation in
        Represents after.patch_edit_queues
          (if is_empty key then arrivals else arrivals ++ (key, operation) ∷ []))
unfolding enqueue_patch_edit_operation Represents waiting
enqueue-Represents now stream path operation arrivals same other =
    let key = trim_space path in
    elim (Bool-cases (is_empty key)) [
      | inl e ↦ rw (trim_space_idem path, e) (same other)
      | inr e ↦
          let queue = queue_at key stream.patch_edit_queues ++ operation ∷ [] in
          let added = queue_at-insert key other queue stream.patch_edit_queues in
          let behind = waiting-append other arrivals ((key, operation) ∷ []) in
          rw (trim_space_idem path, e)
            (elim (Bool-cases (str_eq key other)) [
              | inl f ↦
                  let one : waiting other ((key, operation) ∷ []) ≡ operation ∷ [] = rw f refl in
                  added
                  ∙ rw f (
                      ap (λ r. r ++ operation ∷ [])
                        (ap (λ k. queue_at k stream.patch_edit_queues) ((str_eq_iff key other).0 f)
                          ∙ same other)
                      ∙ sym (behind ∙ ap (λ r. waiting other arrivals ++ r) one))
              | inr f ↦
                  let none_more : waiting other ((key, operation) ∷ []) ≡ [] = rw f refl in
                  added
                  ∙ rw f (
                      same other
                      ∙ sym (append-nil (waiting other arrivals))
                      ∙ sym (behind ∙ ap (λ r. waiting other arrivals ++ r) none_more))
            ])
    ]

-- What is taken from a queue.
take_from_queue_lem :
    (now : ℕ) (key : Text) (stream : QueueState) (queue : List QueuedPatchEditOperation)
    → (let (after, next) = take_from_queue now key queue stream in
        (next ≡ first_of queue)
        × ((other : Text)
            → queue_at other after.patch_edit_queues ≡ (
                if str_eq key other
                then drop 1 queue
                else queue_at other stream.patch_edit_queues)))
unfolding take_from_queue first_of
take_from_queue_lem now key stream [] =
    (refl, λ other. queue_at-erase key other stream.patch_edit_queues)
take_from_queue_lem now key stream (next ∷ []) =
    (refl, λ other. queue_at-erase key other stream.patch_edit_queues)
take_from_queue_lem now key stream (next ∷ second ∷ remaining) =
    (refl, λ other. queue_at-insert key other (second ∷ remaining) stream.patch_edit_queues)

-- An edit that is taken.
take-Represents :
    (now : ℕ) (stream : QueueState) (path : Text) (arrivals : Arrivals)
    → Represents stream.patch_edit_queues arrivals
    → (let (after, next) = take_next_queued_patch_edit_operation now stream path in
        let (left, found) = first_of_file (trim_space path) arrivals in
        (next ≡ found) × Represents after.patch_edit_queues left)
unfolding take_next_queued_patch_edit_operation first_of_file Represents
take-Represents now stream path arrivals same =
    let key = trim_space path in
    let queue = queue_at key stream.patch_edit_queues in
    let (first, queues) = take_from_queue_lem now key stream queue in
    elim (Bool-cases (is_empty key)) [
      | inl e ↦ rw e (refl, same)
      | inr e ↦ rw e (
        first ∙ ap first_of (same key) ∙ sym (remove_first-first_of key arrivals),
        λ other.
            queues other
            ∙ elim (Bool-cases (str_eq key other)) [
              | inl f ↦ rw f (
                  ap (drop 1)
                    (same key ∙ ap (λ k. waiting k arrivals) ((str_eq_iff key other).0 f)))
              | inr f ↦ rw f (same other)
            ]
            ∙ sym (waiting-remove_first key other arrivals),
      )
    ]

answers-expected :
    (requests : List QueueRequest) (stream : QueueState) (arrivals : Arrivals)
    → Represents stream.patch_edit_queues arrivals
    → answers requests stream ≡ expected_answers requests arrivals
unfolding answers expected_answers
answers-expected [] stream arrivals same = refl
answers-expected (wait_for now path operation ∷ requests) stream arrivals same =
    let key = trim_space path in
    answers-expected requests (enqueue_patch_edit_operation now stream key operation)
      (if is_empty key then arrivals else arrivals ++ (key, operation) ∷ [])
      (enqueue-Represents now stream path operation arrivals same)
answers-expected (next_of now path ∷ requests) stream arrivals same =
    let after = (take_next_queued_patch_edit_operation now stream path).0 in
    let (left, found) = first_of_file (trim_space path) arrivals in
    let (next, same_after) = take-Represents now stream path arrivals same in
    ap (λ r. r ∷ answers requests after) next
    ∙ ap (λ r. found ∷ r) (answers-expected requests after left same_after)

-- Whatever edits are queued and taken in whatever order, on a stream without queued edits: the table of
-- queues answers as one list of all edits does, in which an edit goes to the end, and the next edit of
-- a file is the first of that file. So the edits of a file are taken once each, in the order in which
-- they came, and other files do not matter.
pub answers_lem :
    (requests : List QueueRequest) (updated_at : ℕ)
    → answers requests (record { patch_edit_queues = []; updated_at = updated_at })
      ≡ expected_answers requests []
unfolding Represents queue_at waiting lookup
answers_lem requests updated_at =
    answers-expected requests (record { patch_edit_queues = []; updated_at = updated_at }) []
      (λ key. refl)
