-- ===== src/Gdrive/Retry/Rounds.antt =====
-- The rounds of `withRetry` in pkg/gdrive/google/retry.go.
use unstructured_data_contro.Gdrive.Retry.{
  Failure, Calls, is_retryable, retry_delay, retry_from, with_retry,
}
use unstructured_data_contro.Prelude.{
  ℕ, zero, suc, ◌+◌, Text, Bool, true, false, Option, none, some, Result, ok, Error, ◌≡◌, ◌↔◌, refl,
  ap, arith, ◌≤◌, ℤ, pos, negsuc,
}

module _ {W : Type 0} (calls : Calls W) where
  abbrev pub after_fn : W → W
  after_fn w = (calls.fn w).1

  -- From attempt `a` in the world `w` the loop gets to attempt `b` in the world `v`: each call
  -- between them fails with an error that can pass, and its wait is not cut short.
  pub data Reaches : ℕ → W → ℕ → W → Type 0 where
    here : (a : ℕ) (w : W) → Reaches a w a w
    again :
        (a : ℕ) (w : W) (f : Failure) (b : ℕ) (v : W)
        → (calls.fn w).0 ≡ some f
        → is_retryable f ≡ true
        → (calls.wait (retry_delay calls f a) (after_fn w)).0 ≡ none
        → Reaches (suc a) (calls.wait (retry_delay calls f a) (after_fn w)).1 b v
        → Reaches a w b v

  Reaches-≤ : (a b : ℕ) (w v : W) → Reaches a w b v → a ≤ b
  Reaches-≤ a b w v (here _ _) = ground arith
  Reaches-≤ a b w v (again _ _ f _ _ _ _ _ r) = ground (arith, Reaches-≤ (suc a) b _ v r)

  abbrev after_wait : Failure → ℕ → W → W
  after_wait f a w = (calls.wait (retry_delay calls f a) (after_fn w)).1

  module _ (max_retries : ℤ) (operation : Text) where
    abbrev outcome : ℕ → ℕ → W → Result (Unit {0}) × W
    outcome = retry_from calls max_retries operation

    retry_from_succeeds :
        (left a b : ℕ) (w v : W)
        → Reaches a w b v
        → b ≤ a + left
        → (calls.fn v).0 ≡ none
        → outcome left a w ≡ (ok tt, after_fn v)
    unfolding retry_from
    retry_from_succeeds zero a b w v (here _ _) h k = ground (arith, k)
    retry_from_succeeds (suc left) a b w v (here _ _) h k = ground (arith, k)
    retry_from_succeeds zero a b w v (again _ _ f _ _ e p c r) h k =
        absurd (ground (arith, Reaches-≤ (suc a) b (after_wait f a w) v r))
    retry_from_succeeds (suc left) a b w v (again _ _ f _ _ e p c r) h k =
        ground (
          arith,
          e,
          p,
          c,
          retry_from_succeeds left (suc a) b (after_wait f a w) v r (omega arith) k,
        )

    -- Some attempt is reached within the limit and succeeds.
    abbrev Succeeds : ℕ → ℕ → W → Type 0
    Succeeds left a w =
        (b : ℕ) × (v : W) × (Reaches a w b v × ((b ≤ a + left) × ((calls.fn v).0 ≡ none)))

    later_success :
        (left a : ℕ) (w : W) (f : Failure)
        → (calls.fn w).0 ≡ some f
        → ((w' : W) → (outcome left (suc a) w').0 ≡ ok tt → Succeeds left (suc a) w')
        → (outcome (suc left) a w).0 ≡ ok tt
        → Succeeds (suc left) a w
    unfolding retry_from
    later_success left a w f e ih h =
        by_wait (is_retryable f) refl (calls.wait (retry_delay calls f a) (after_fn w)).0 refl
      where
        by_wait :
            (b : Bool)
            → is_retryable f ≡ b
            → (o : Option Error) → (calls.wait (retry_delay calls f a) (after_fn w)).0 ≡ o
            → Succeeds (suc left) a w
        by_wait false p o c = absurd (ground (arith, e, p))
        by_wait true p (some x) c = absurd (ground (arith, e, p, c))
        by_wait true p none c =
            let (b, v, (r, (bound, done))) = ih (after_wait f a w) (ground (arith, e, p, c)) in
            (b, v, (again a w f b v e p c r, (omega arith, done)))

    retry_from_reaches : (left a : ℕ) (w : W) → (outcome left a w).0 ≡ ok tt → Succeeds left a w
    unfolding retry_from
    retry_from_reaches zero a w h = by_call (calls.fn w).0 refl
      where
        by_call : (r : Option Failure) → (calls.fn w).0 ≡ r → Succeeds zero a w
        by_call none e = (a, w, (here a w, (omega arith, e)))
        by_call (some f) e = absurd (ground (arith, e))
    retry_from_reaches (suc left) a w h =
        by_call (retry_from_reaches left (suc a)) (calls.fn w).0 refl
      where
        by_call :
            ((w' : W) → (outcome left (suc a) w').0 ≡ ok tt → Succeeds left (suc a) w')
            → (r : Option Failure) → (calls.fn w).0 ≡ r
            → Succeeds (suc left) a w
        by_call ih none e = (a, w, (here a w, (omega arith, e)))
        by_call ih (some f) e = later_success left a w f e ih h

    -- The calls of a run are counted.
    retry_from_bounds :
        (made : W → ℕ)
        → ((w : W) → made (after_fn w) ≡ suc (made w))
        → ((d : calls.Duration) (w : W) → made (calls.wait d w).1 ≡ made w)
        → (left a : ℕ) (w : W)
        → (suc (made w) ≤ made (outcome left a w).1)
          × (made (outcome left a w).1 ≤ suc (made w + left))
    unfolding retry_from
    retry_from_bounds made counts waits zero a w = ground (arith, counts w)
    retry_from_bounds made counts waits (suc left) a w =
        by_call (retry_from_bounds made counts waits left (suc a)) (calls.fn w).0 refl
      where
        by_call :
            ((v : W)
              → (suc (made v) ≤ made (outcome left (suc a) v).1)
                × (made (outcome left (suc a) v).1 ≤ suc (made v + left)))
            → (r : Option Failure) → (calls.fn w).0 ≡ r
            → (suc (made w) ≤ made (outcome (suc left) a w).1)
              × (made (outcome (suc left) a w).1 ≤ suc (made w + suc left))
        by_call ih none e = ground (arith, e, counts w)
        by_call ih (some f) e =
            ground (
              arith,
              e,
              counts w,
              waits (retry_delay calls f a) (after_fn w),
              ih (after_wait f a w),
            )

  -- Some attempt within the limit is reached and succeeds; with a negative limit there is none.
  abbrev pub SucceedsWithin : ℤ → W → Type 0
  SucceedsWithin (pos n) w =
      (b : ℕ) × (v : W) × (Reaches 0 w b v × ((b ≤ n) × ((calls.fn v).0 ≡ none)))
  SucceedsWithin (negsuc n) w = ⊥

  -- withRetry succeeds exactly if its limit `max_retries` is not negative and, after at most that
  -- many calls that fail with an error that can pass and whose waits are not cut short, a call
  -- succeeds.
  pub with_retry_iff :
      (max_retries : ℤ) (operation : Text) (w : W)
      → ((with_retry calls max_retries operation w).0 ≡ ok tt) ↔ SucceedsWithin max_retries w
  unfolding with_retry
  with_retry_iff (pos n) operation w = (
    λ h.
        let (b, v, (r, (bound, done))) = retry_from_reaches (pos n) operation n 0 w h in
        (b, v, (r, (omega arith, done))),
    λ s.
        ap (λ (p : Result (Unit {0}) × W). p.0)
          (retry_from_succeeds (pos n) operation n 0 s.0 w s.1 s.2.0 (omega (arith, s.2.1.0))
            s.2.1.1),
  )
  with_retry_iff (negsuc n) operation w = (λ h. absurd (ground (arith, h)), λ s. absurd s)

  -- The calls that withRetry makes at least and at most.
  abbrev pub fewest : ℤ → ℕ
  fewest (pos n) = 1
  fewest (negsuc n) = 0

  abbrev pub most : ℤ → ℕ
  most (pos n) = suc n
  most (negsuc n) = 0

  -- withRetry calls the operation at least once and at most `max_retries + 1` times if
  -- `max_retries` is not negative, and never if it is, where every call is counted and no wait is.
  pub with_retry_bounds :
      (max_retries : ℤ) (operation : Text) (made : W → ℕ)
      → ((w : W) → made (after_fn w) ≡ suc (made w))
      → ((d : calls.Duration) (w : W) → made (calls.wait d w).1 ≡ made w)
      → (w : W)
      → (made w + fewest max_retries ≤ made (with_retry calls max_retries operation w).1)
        × (made (with_retry calls max_retries operation w).1 ≤ made w + most max_retries)
  unfolding with_retry
  with_retry_bounds (pos n) operation made counts waits w =
      omega (arith, retry_from_bounds (pos n) operation made counts waits n 0 w)
  with_retry_bounds (negsuc n) operation made counts waits w = omega arith
