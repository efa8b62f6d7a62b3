-- ===== src/Admin/Limits.antt =====
-- The paging parameters of the lists of internal/admin (api.go, audit_api.go).
use cloud_file_server.Base.{ℕ, ◌≤◌, leb, ltb, ◌||◌, if◌then◌else◌, arith}
use cloud_file_server.Base.Int.{ℤ, pos, negsuc}
use cloud_file_server.Text.{Text}
use cloud_file_server.Text.Numbers.{atoi}

-- `limit`, which counts from 1 to `high`, or is the default; an error of Atoi is ignored.
limit_between : (high default : ℕ) → ℤ → ℕ
limit_between high default (pos n) = if leb n 0 || ltb high n then default else n
limit_between high default (negsuc _) = default

unfoldable pub limit_of : (high default : ℕ) → Text → ℕ
unfolding limit_between atoi
limit_of high default v = limit_between high default (atoi v).0

-- `offset`, also without a check.
unfoldable pub offset_of : Text → ℤ
unfolding atoi
offset_of v = (atoi v).0

-- A limit is positive and at most the highest, whatever the parameter is.
pub limit_of-bounds :
    (high default : ℕ) (v : Text)
    → 1 ≤ default
    → default ≤ high
    → (1 ≤ limit_of high default v) × (limit_of high default v ≤ high)
unfolding limit_of
limit_of-bounds high default v low fits = between (atoi v).0
  where
    between : (n : ℤ) → (1 ≤ limit_between high default n) × (limit_between high default n ≤ high)
    between (pos n) = unfold limit_between in ground arith
    between (negsuc _) = (low, fits)
