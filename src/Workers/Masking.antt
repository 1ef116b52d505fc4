-- ===== src/Workers/Masking.antt =====
-- A worker of src/lib/worker-result.ts never reports success over a failure.
use rent_a_4_wheel.Prelude.{
  ℕ, ◌+◌, ◌≡◌, ◌↔◌, refl, ap, sym, subst, ◌∙◌, Bool, true, false, List, [], ◌∷◌, All, sum_by,
  if◌then◌else◌, leb, Result, ok, guard, >>=-eq-ok, arith,
}
use rent_a_4_wheel.Workers.{
  WorkerStatus, WorkerCounts, WorkerResult, WorkerError, add_counts, add_children, are_valid,
  bad_count, status_of, worker_result, http_of, worker_http_status,
}

-- The status of a result is that of its counts, as in every result of `workerResult`.
abbrev pub IsClassified : WorkerResult → Type 0
IsClassified r = r.status ≡ status_of r.counts

http_cases :
    (bad committed disabled : Bool)
    → (http_of (
          if bad
          then (if committed then WorkerStatus.partial_failure else WorkerStatus.failed)
          else if committed
          then WorkerStatus.success
          else if disabled
          then WorkerStatus.disabled
          else WorkerStatus.no_work)
        ≡ 200)
      ↔ (bad ≡ false)
unfolding http_of
http_cases true true d = ground arith
http_cases true false d = ground arith
http_cases false true d = (λ h. refl, λ h. refl)
http_cases false false true = (λ h. refl, λ h. refl)
http_cases false false false = (λ h. refl, λ h. refl)

status-http : (c : WorkerCounts) → (http_of (status_of c) ≡ 200) ↔ (bad_count c ≡ 0)
unfolding status_of
status-http c =
    let k = http_cases (leb 1 (bad_count c)) (leb 1 c.committed) (leb 1 c.disabled) in
    (λ h. ground (arith, k.0 h), λ h. k.1 (ground arith))

abbrev pub bad_of : WorkerResult → ℕ
bad_of r = bad_count r.counts

bad-add_children :
    (c : WorkerCounts) (rs : List WorkerResult)
    → bad_count (add_children c rs) ≡ bad_count c + sum_by bad_of rs
unfolding add_children add_counts bad_count
bad-add_children c [] = omega arith
bad-add_children c (r ∷ rs) = omega (arith, bad-add_children (add_counts c r.counts) rs)

no_bad : (rs : List WorkerResult) → sum_by bad_of rs ≡ 0 → All (λ r. bad_of r ≡ 0) rs
no_bad [] h = tt
no_bad (r ∷ rs) h = (omega arith, no_bad rs (omega arith))

ok_inj : (x r : WorkerResult) → ◌≡◌ {A = Result WorkerError WorkerResult} (ok x) (ok r) → x ≡ r
ok_inj x r h = cc

-- What a successful call computes.
computed :
    (input : WorkerCounts) (children : List WorkerResult) (r : WorkerResult)
    → worker_result input children ≡ ok r
    → IsClassified r × (bad_of r ≡ bad_count input + sum_by bad_of children)
unfolding worker_result bad_count
computed input children r h =
    let (_, g, h1) = >>=-eq-ok (guard (are_valid (add_children input children)) _) _ h in
    subst (λ x. IsClassified x × (bad_of x ≡ bad_count input + sum_by bad_of children))
      (ok_inj _ r h1) (refl, bad-add_children input children)

children_ok :
    (rs : List WorkerResult)
    → All IsClassified rs
    → All (λ r. bad_of r ≡ 0) rs
    → All (λ r. worker_http_status r ≡ 200) rs
unfolding worker_http_status
children_ok [] c b = tt
children_ok (r ∷ rs) c b = (ap http_of c.0 ∙ (status-http r.counts).1 b.0, children_ok rs c.1 b.1)

-- A failure is never masked: where a worker answers 200, it counted nothing failed, stale, under review,
-- quarantined or uncertain itself, and every child whose status is that of its counts answers 200 too.
failures_surface :
    (input : WorkerCounts) (children : List WorkerResult) (r : WorkerResult)
    → All IsClassified children
    → worker_result input children ≡ ok r
    → worker_http_status r ≡ 200
    → (bad_count input ≡ 0) × All (λ x. worker_http_status x ≡ 200) children
unfolding worker_http_status
failures_surface input children r c h s =
    let (k, b) = computed input children r h in
    let z = (status-http r.counts).0 (sym (ap http_of k) ∙ s) in
    (omega (arith, b, z), children_ok children c (no_bad children (omega (arith, b, z))))
