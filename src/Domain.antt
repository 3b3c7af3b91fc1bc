-- ===== src/Domain.antt =====
-- domain/task.go: the task.
use triggerhook.Base.{ℤ, String}

-- `exec_time` is an int64, the Unix second at which the task is due.
pub record Task : Type 0 where
  pub id : String
  pub exec_time : ℤ
