-- ===== src/Config/Validation.antt =====
-- What the settings that `from_env` returns satisfy.
use crashsafe.Prelude.{ℕ, suc, ◌<◌, ◌≡◌, pos, Float, finite, infinite, nan}
use crashsafe.Config.{ProcessSettings}

-- Above zero, or `nan`.
pub data IsPositiveOrNan : Float → Type 0 where
  positive : (n : ℕ) → 0 < n → IsPositiveOrNan (finite (pos n))
  unbounded : IsPositiveOrNan infinite
  undefined : IsPositiveOrNan nan

-- The interval of renewals is below the duration of the lease, where both are numbers.
pub data IsRenewedInTime : Float → Float → Type 0 where
  within : (renew ttl : ℕ) → renew < ttl → IsRenewedInTime (finite (pos renew)) (finite (pos ttl))
  endless : (renew : ℕ) → IsRenewedInTime (finite (pos renew)) infinite
  nan_interval : (ttl : Float) → IsRenewedInTime nan ttl
  nan_duration : (renew : Float) → IsRenewedInTime renew nan

-- There is a worker, and the interval and the duration of a lease fit.
pub record AreUsable (settings : ProcessSettings) : Type 0 where
  pub workers : (n : ℕ) × (settings.worker_count ≡ pos (suc n))
  pub lasting : IsPositiveOrNan settings.lease_ttl
  pub recurring : IsPositiveOrNan settings.lease_renew_interval
  pub renewed : IsRenewedInTime settings.lease_renew_interval settings.lease_ttl
