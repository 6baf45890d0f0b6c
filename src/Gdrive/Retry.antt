-- ===== src/Gdrive/Retry.antt =====
-- pkg/gdrive/google/retry.go: a call is repeated while it fails in a way that can pass.
pub mod Rounds
mod Tests
use unstructured_data_contro.Prelude.{
  ℕ, zero, suc, ◌+◌, ◌^◌, Text, codes, Bool, true, false, Option, none, some, [], ◌++◌, ltb, leb,
  ◌==◌, ◌&&◌, nat_eq, list_eq, if◌then◌else◌, Result, ok, err, Error, new_error, wrap, decimal, ◌≡◌,
  ℤ, pos, negsuc,
}

-- A failed call: the error, with the code and the Retry-After header of the googleapi.Error in it,
-- if there is one.
pub record Failure : Type 0 where
  pub error : Error
  pub api_error : Option (ℕ × Text)

-- The operation that is repeated (`none` is nil), the timer against the context (`none` if the
-- timer fires first, else ctx.Err()), time.Duration, and strconv.Atoi of a number of seconds.
pub record Calls (W : Type 0) : Type 1 where
  pub Duration : Type 0
  pub seconds : ℕ → Duration
  pub parse_seconds : Text → Option Duration
  pub fn : W → Option Failure × W
  pub wait : Duration → W → Option Error × W

unfoldable pub is_retryable : Failure → Bool
is_retryable f = elim f.api_error [
  | none ↦ false
  | some (code, _) ↦ if code == 429 then true else leb 500 code && ltb code 600
]

module _ {W : Type 0} (calls : Calls W) where
  abbrev or_else : calls.Duration → Option calls.Duration → calls.Duration
  or_else d none = d
  or_else d (some e) = e

  -- Retry-After of a 429, and else 2 to the power of the attempt.
  unfoldable pub retry_delay : Failure → ℕ → calls.Duration
  retry_delay f attempt =
      let backoff = calls.seconds (2 ^ attempt) in
      elim f.api_error [
        | none ↦ backoff
        | some (code, retry_after) ↦
            if code == 429
            then if retry_after == []
              then backoff
              else or_else backoff (calls.parse_seconds retry_after)
            else backoff
      ]

  -- %d
  abbrev integer : ℤ → Text
  integer (pos n) = decimal n
  integer (negsuc n) = codes "-" ++ decimal (suc n)

  module _ (max_retries : ℤ) (operation : Text) where
    abbrev exhausted_prefix : Text
    exhausted_prefix =
        operation ++ codes ": exhausted " ++ integer max_retries ++ codes " retries: "

    abbrev exhausted : Error → Error
    exhausted e = wrap exhausted_prefix e

    -- The error of a loop that made no call: lastErr is nil, and `%w` says so.
    abbrev pub never_called : Error
    never_called = new_error (exhausted_prefix ++ codes "%!w(<nil>)")

    abbrev cancelled : Error → Error
    cancelled e = wrap (operation ++ codes ": context cancelled during retry: ") e

    -- The loop from `attempt` on, with `left` more attempts behind it.
    unfoldable pub retry_from : ℕ → ℕ → W → Result (Unit {0}) × W
    retry_from zero attempt w =
        let (failed, w') = calls.fn w in
        elim failed [ none ↦ (ok tt, w') | some f ↦ (err (exhausted f.error), w') ]
    retry_from (suc left) attempt w =
        let (failed, w') = calls.fn w in
        elim failed [
          | none ↦ (ok tt, w')
          | some f ↦ elim (is_retryable f) [
            | false ↦ (err f.error, w')
            | true ↦
                let (stopped, w'') = calls.wait (retry_delay f attempt) w' in
                elim stopped [
                  | some e ↦ (err (cancelled e), w'')
                  | none ↦ retry_from left (suc attempt) w''
                ]
          ]
        ]

    -- The loop is left at once if the limit is negative.
    abbrev retry_within : ℤ → W → Result (Unit {0}) × W
    retry_within (pos n) w = retry_from n 0 w
    retry_within (negsuc n) w = (err never_called, w)

    unfoldable pub with_retry : W → Result (Unit {0}) × W
    with_retry w = retry_within max_retries w
