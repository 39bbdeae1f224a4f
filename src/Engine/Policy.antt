-- ===== src/Engine/Policy.antt =====
-- The retry policy.
use crashsafe.Prelude.{ℕ, leb, if◌then◌else◌}

-- the smaller one of two numbers
abbrev pub capped : ℕ → ℕ → ℕ
capped m p = if leb p m then p else m
