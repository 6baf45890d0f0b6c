-- ===== src/Gdrive/Retry/Tests.antt =====
-- A call that is refused twice, with 429 and 503, and then answered.
use unstructured_data_contro.Gdrive.Retry.{Failure, Calls, with_retry}
use unstructured_data_contro.Gdrive.Retry.Rounds.{
  SucceedsWithin, fewest, most, with_retry_iff, with_retry_bounds,
}
use unstructured_data_contro.Prelude.{
  ℕ, zero, suc, ◌+◌, ◌≤◌, codes, Option, none, some, [], ok, new_error, pos, ◌≡◌, ◌↔◌, refl,
}

abbrev refused : ℕ → Failure
refused code = record { error = new_error (codes "googleapi: Error"); api_error = some (code, []) }

-- The world is the number of calls made.
abbrev answer : ℕ → Option Failure
answer zero = some (refused 429)
answer (suc zero) = some (refused 503)
answer (suc (suc n)) = none

abbrev calls : Calls ℕ
calls = record {
  Duration = ℕ;
  seconds = λ n. n;
  parse_seconds = λ t. none;
  fn = λ n. (answer n, suc n);
  wait = λ d n. (none, n);
}

with_retry_iff_example :
    ((with_retry calls (pos 3) (codes "files.list") 0).0 ≡ ok tt) ↔ SucceedsWithin calls (pos 3) 0
with_retry_iff_example = with_retry_iff calls (pos 3) (codes "files.list") 0

with_retry_bounds_example :
    (0 + fewest calls (pos 3) ≤ (with_retry calls (pos 3) (codes "files.list") 0).1)
    × ((with_retry calls (pos 3) (codes "files.list") 0).1 ≤ 0 + most calls (pos 3))
with_retry_bounds_example =
    with_retry_bounds calls (pos 3) (codes "files.list") (λ n. n) (λ n. refl) (λ d n. refl) 0
