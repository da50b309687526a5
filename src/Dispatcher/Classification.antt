-- ===== src/Dispatcher/Classification.antt =====
-- How services/dispatcher.rs takes an answer, against the table in its comments.
use que_qiao_router.Base.{ℕ, ◌≡◌, refl, Bool, true, not, ◌&&◌, ◌||◌, ◌==◌, arith}
use que_qiao_router.Response.{is_success, is_client_error}
use que_qiao_router.Dispatcher.{
  Reply, ok, err, classify, counts_as_backend_failure, is_rejected, should_retry_on_client_error,
  is_final, is_failure,
}

-- The four statuses that another backend may answer better.
abbrev pub is_retried : ℕ → Bool
is_retried status = status == 401 || status == 403 || status == 404 || status == 429

abbrev pub is_error_or_429 : Reply → Bool
is_error_or_429 (err e) = true
is_error_or_429 (ok resp) = resp.status == 429

is_final_lem :
    (status : ℕ)
    → is_final status ≡ (is_success status || (is_client_error status && not (is_retried status)))
unfolding is_final should_retry_on_client_error is_rejected classify
is_final_lem status = ground arith

is_failure_lem : (reply : Reply) → is_failure reply ≡ is_error_or_429 reply
unfolding is_failure is_final should_retry_on_client_error is_rejected classify
    counts_as_backend_failure
is_failure_lem (err e) = refl
is_failure_lem (ok resp) = ground arith

-- The table of the statuses: an answer ends the attempts exactly if it is a success, or a 4xx other
-- than 401, 403, 404 and 429; and it counts against its backend exactly if it is an error of the
-- gateway, such as a connection that fails, or a 429.
pub classification :
    (status : ℕ) (reply : Reply)
    → (is_final status ≡ (is_success status || (is_client_error status && not (is_retried status))))
      × (is_failure reply ≡ is_error_or_429 reply)
classification status reply = (is_final_lem status, is_failure_lem reply)
