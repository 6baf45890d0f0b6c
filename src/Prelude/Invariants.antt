-- ===== src/Prelude/Invariants.antt =====
-- Invariants of steps of the outside world: one rule for each way in which a step is built.
use mathlib.Core.Path.{◌≡◌, refl}
use unstructured_data_contro.Prelude.Results.{Result, ok, err, Io, continue, ◌>>=◌}

-- `m` keeps `P`, whether it succeeds or fails.
abbrev pub Keeps : {W A : Type 0} → (W → Type 0) → Io W A → Type 0
Keeps {W} P m = (w : W) → P w → P (m w).1

module _ {W A B : Type 0} (P : W → Type 0) where
  -- The rest may use what the first step returned, and where.
  pub Keeps-bind_with :
      (m : Io W A) (f : A → Io W B)
      → Keeps P m
      → ((w : W) (a : A) → (m w).0 ≡ ok a → P (m w).1 → P (f a (m w).1).1)
      → Keeps P (m >>= f)
  Keeps-bind_with m f km kf w h = by_result (m w).0 refl
    where
      by_result : (r : Result A) → (m w).0 ≡ r → P (continue r f (m w).1).1
      by_result (ok a) e = kf w a e (km w h)
      by_result (err x) e = km w h

  pub Keeps-bind :
      (m : Io W A) (f : A → Io W B) → Keeps P m → ((a : A) → Keeps P (f a)) → Keeps P (m >>= f)
  Keeps-bind m f km kf = Keeps-bind_with m f km (λ w a e h. kf a (m w).1 h)

module _ {W A B : Type 0} (P Q : W → Type 0) (weaken : (w : W) → P w → Q w) where
  -- `P` holds up to the rest, which leads from it to `Q`.
  pub bind_leads :
      (m : Io W A) (f : A → Io W B)
      → Keeps P m
      → ((a : A) (w : W) → P w → Q (f a w).1)
      → (w : W) → P w
      → Q (continue (m w).0 f (m w).1).1
  bind_leads m f km kf w h = by_result (m w).0
    where
      by_result : (r : Result A) → Q (continue r f (m w).1).1
      by_result (ok a) = kf a (m w).1 (km w h)
      by_result (err x) = weaken (m w).1 (km w h)
