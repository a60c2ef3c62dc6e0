-- ===== src/Policy/Session/Balance.antt =====
-- `executePolicySession` closes what it opens.
use secboot.Exec.{Exec}
