-- ===== src/Workers.antt =====
-- `workerResult` and `workerHttpStatus` of src/lib/worker-result.ts: what a scheduled worker reports.
pub mod Masking
use rent_a_4_wheel.Prelude.{
  ℕ, ◌+◌, ◌≡◌, Bool, true, false, not, ◌&&◌, List, [], ◌∷◌, if◌then◌else◌, leb, Result, ok, err,
  guard, ◌>>=◌, ◌>>◌,
}

pub data WorkerStatus : Type 0 where
  success partial_failure failed disabled no_work : WorkerStatus

-- `WorkerCounts`.
pub record WorkerCounts : Type 0 where
  pub checked : ℕ
  pub actionable : ℕ
  pub attempted : ℕ
  pub committed : ℕ
  pub processed : ℕ
  pub failed : ℕ
  pub stale : ℕ
  pub review : ℕ
  pub quarantined : ℕ
  pub uncertain : ℕ
  pub skipped : ℕ
  pub disabled : ℕ

-- A result; the children that it carries along are those of the call.
pub record WorkerResult : Type 0 where
  pub counts : WorkerCounts
  pub status : WorkerStatus

pub data WorkerError : Type 0 where
  invalid_worker_counts : WorkerError

-- `counts[k] += child[k]` for every key.
unfoldable pub add_counts : WorkerCounts → WorkerCounts → WorkerCounts
add_counts a b = record {
  checked = a.checked + b.checked;
  actionable = a.actionable + b.actionable;
  attempted = a.attempted + b.attempted;
  committed = a.committed + b.committed;
  processed = a.processed + b.processed;
  failed = a.failed + b.failed;
  stale = a.stale + b.stale;
  review = a.review + b.review;
  quarantined = a.quarantined + b.quarantined;
  uncertain = a.uncertain + b.uncertain;
  skipped = a.skipped + b.skipped;
  disabled = a.disabled + b.disabled;
}

unfoldable pub add_children : WorkerCounts → List WorkerResult → WorkerCounts
unfolding add_counts
add_children c [] = c
add_children c (r ∷ rs) = add_children (add_counts c r.counts) rs

abbrev is_safe : ℕ → Bool
is_safe n = leb n 9007199254740991

-- No count is unsafe.
unfoldable pub are_valid : WorkerCounts → Bool
are_valid c =
    is_safe c.checked
    && is_safe c.actionable
    && is_safe c.attempted
    && is_safe c.committed
    && is_safe c.processed
    && is_safe c.failed
    && is_safe c.stale
    && is_safe c.review
    && is_safe c.quarantined
    && is_safe c.uncertain
    && is_safe c.skipped
    && is_safe c.disabled

unfoldable pub bad_count : WorkerCounts → ℕ
bad_count c = c.failed + c.stale + c.review + c.quarantined + c.uncertain

unfoldable pub status_of : WorkerCounts → WorkerStatus
unfolding bad_count
status_of c =
    if leb 1 (bad_count c)
    then (if leb 1 c.committed then WorkerStatus.partial_failure else WorkerStatus.failed)
    else if leb 1 c.committed
    then WorkerStatus.success
    else if leb 1 c.disabled
    then WorkerStatus.disabled
    else WorkerStatus.no_work

-- `input` has 0 for a count that is left out.
unfoldable pub worker_result : WorkerCounts → List WorkerResult → Result WorkerError WorkerResult
unfolding add_children are_valid status_of
worker_result input children = do
  let counts = add_children input children
  guard (are_valid counts) invalid_worker_counts
  let result = record counts { processed = counts.committed }
  ok (record { counts = result; status = status_of result })

-- 503 for the two failures, else 200.
pub http_of : WorkerStatus → ℕ
http_of WorkerStatus.partial_failure = 503
http_of WorkerStatus.failed = 503
http_of _ = 200

unfoldable pub worker_http_status : WorkerResult → ℕ
unfolding http_of
worker_http_status r = http_of r.status
