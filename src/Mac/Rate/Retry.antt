-- ===== src/Mac/Rate/Retry.antt =====
-- rate.rs: the retries of a batch, after the report of its first failure.
use s2g.Base.Floats.{Floats}
