-- ===== src/Builder/Schema.antt =====
-- Up leaves the settings of the repository as they are.
use triggerhook.Base.{Bool-cases, Option-cases, inl, inr, ◌≡◌, refl}
use triggerhook.Repository.Failures.{has_number, er_sp_already_exists, MysqlRepository}
use triggerhook.Repository.Up.{UpFailures, Setup, commit, create_procedure, up}

-- The same settings and database.
pub record SameSettings (r : MysqlRepository) (s : Setup) : Type 0 where
  pub cleaning_frequency : s.repository.cleaning_frequency ≡ r.cleaning_frequency
  pub max_count_tasks_in_collection :
      s.repository.max_count_tasks_in_collection ≡ r.max_count_tasks_in_collection

commit-SameSettings : (f : UpFailures) (r : MysqlRepository) → SameSettings r (commit f r)
unfolding commit
commit-SameSettings f r = elim (Option-cases f.in_commit) [
  | inl h ↦
      rw (commit, h) (record { cleaning_frequency = refl; max_count_tasks_in_collection = refl })
  | inr (e, h) ↦
      rw (commit, h) (record { cleaning_frequency = refl; max_count_tasks_in_collection = refl })
]

procedure-SameSettings :
    (f : UpFailures) (r : MysqlRepository) → SameSettings r (create_procedure f r)
unfolding create_procedure
procedure-SameSettings f r = elim (Option-cases f.in_procedure) [
  | inl h ↦ rw (create_procedure, h) (commit-SameSettings f r)
  | inr (e, h) ↦ elim (Bool-cases (has_number er_sp_already_exists e)) [
    | inl b ↦ rw (create_procedure, h, b) (commit-SameSettings f r)
    | inr b ↦
        rw (create_procedure, h, b)
          (record { cleaning_frequency = refl; max_count_tasks_in_collection = refl })
  ]
]

pub up-SameSettings : (f : UpFailures) (r : MysqlRepository) → SameSettings r (up f r)
unfolding up
up-SameSettings f r = elim (Option-cases f.in_begin) [
  | inr (e, h) ↦
      rw (up, h) (record { cleaning_frequency = refl; max_count_tasks_in_collection = refl })
  | inl h ↦ elim (Option-cases f.in_collection_table) [
    | inr (e, i) ↦
        rw (up, h, i) (record { cleaning_frequency = refl; max_count_tasks_in_collection = refl })
    | inl i ↦ elim (Option-cases f.in_task_table) [
      | inr (e, j) ↦
          rw (up, h, i, j)
            (record { cleaning_frequency = refl; max_count_tasks_in_collection = refl })
      | inl j ↦ rw (up, h, i, j) (procedure-SameSettings f r)
    ]
  ]
]
