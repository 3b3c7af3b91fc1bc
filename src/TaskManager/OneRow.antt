-- ===== src/TaskManager/OneRow.antt =====
-- A repository with a table of one row, whose next call may end in a deadlock.
use triggerhook.Base.{
  ◌^◌, Bool-cases, inl, inr, ◌<◌, ℤ, pos, str_eq, List, [], ◌∷◌, ◌≡◌, refl, arith, Bool, true,
  false, Option, none, some, length, ◌-◌,
}
use triggerhook.Domain.{Task}
use triggerhook.Contracts.Errors.{RepoError, deadlock, task_exist, no_tasks_found}
use triggerhook.TaskManager.Interface.{Repository, World}
use triggerhook.TaskManager.Operations.{TaskManager}
use triggerhook.TaskManager.Laws.{RepositoryLaws, without, is_named}

pub record Table : Type 0 where
  pub deadlocked : Bool
  pub row : List Task

abbrev pub head_only : List Task → List Task
head_only [] = []
head_only (t ∷ _) = t ∷ []

abbrev pub insert : Task → List Task → Option RepoError × List Task
insert task [] = (none, task ∷ [])
insert task (t ∷ rest) = (some task_exist, t ∷ rest)

abbrev pub insert_unless : Bool → Task → List Task → Option RepoError × Table
insert_unless true task row = (some deadlock, record { deadlocked = false; row = row })
insert_unless false task row =
    let (e, row') = insert task row in (e, record { deadlocked = false; row = row' })

abbrev pub delete_unless : Bool → List Task → List Task → ℤ × Option RepoError × Table
delete_unless true tasks row = (pos 0, some deadlock, record { deadlocked = false; row = row })
delete_unless false tasks row = (
  pos (length (head_only row) - length (without tasks (head_only row))),
  none,
  record { deadlocked = false; row = without tasks (head_only row) },
)

abbrev pub table : Repository Table (Unit {0})
table = record {
  create = λ task _ r. insert_unless r.deadlocked task r.row;
  delete = λ tasks r. delete_unless r.deadlocked tasks r.row;
  find_by_sec_to_exec_time = λ _ r. (none, some no_tasks_found, r);
}

pub insert_rolls_back :
    (b : Bool) (task : Task) (row : List Task) (e : RepoError)
    → (insert_unless b task row).0 ≡ some e
    → head_only (insert_unless b task row).1.row ≡ head_only row
insert_rolls_back true task row e h = refl
insert_rolls_back false task [] e h = cc h
insert_rolls_back false task (t ∷ rest) e h = refl

pub insert_stores :
    (b : Bool) (task : Task) (row : List Task)
    → (insert_unless b task row).0 ≡ none
    → head_only (insert_unless b task row).1.row ≡ task ∷ head_only row
insert_stores true task row h = cc h
insert_stores false task [] h = refl
insert_stores false task (t ∷ rest) h = cc h

pub delete_rolls_back :
    (b : Bool) (tasks row : List Task) (e : RepoError)
    → (delete_unless b tasks row).1 ≡ some e
    → head_only (delete_unless b tasks row).2.row ≡ head_only row
delete_rolls_back true tasks row e h = refl
delete_rolls_back false tasks row e h = cc h

pub head_only-without :
    (tasks row : List Task)
    → head_only (without tasks (head_only row)) ≡ without tasks (head_only row)
unfolding without
head_only-without tasks [] = refl
head_only-without tasks (t ∷ rest) = elim (Bool-cases (is_named t.id tasks)) [
  | inl b ↦ rw b refl
  | inr b ↦ rw b refl
]

pub delete_removes :
    (b : Bool) (tasks row : List Task)
    → (delete_unless b tasks row).1 ≡ none
    → head_only (delete_unless b tasks row).2.row ≡ without tasks (head_only row)
delete_removes true tasks row h = cc h
delete_removes false tasks row h = head_only-without tasks row

pub delete_affects :
    (b : Bool) (tasks row : List Task)
    → (delete_unless b tasks row).1 ≡ none
    → (delete_unless b tasks row).0
      ≡ pos (length (head_only row) - length (without tasks (head_only row)))
delete_affects true tasks row h = cc h
delete_affects false tasks row h = refl

pub head_only_fits : (row : List Task) → length (head_only row) < 2 ^ 63
head_only_fits [] = omega arith
head_only_fits (t ∷ rest) = omega arith

abbrev pub laws : RepositoryLaws table
laws = record {
  contents = λ r. head_only r.row;
  contents_fit = λ r. head_only_fits r.row;
  create_rolls_back = λ task _ r e h. insert_rolls_back r.deadlocked task r.row e h;
  create_stores = λ task _ r h. insert_stores r.deadlocked task r.row h;
  delete_rolls_back = λ tasks r e h. delete_rolls_back r.deadlocked tasks r.row e h;
  delete_removes = λ tasks r h. delete_removes r.deadlocked tasks r.row h;
  delete_affects = λ tasks r h. delete_affects r.deadlocked tasks r.row h;
  find_keeps = λ _ _. refl;
}

abbrev pub manager : ℤ → TaskManager Table (Unit {0})
manager tries = record {
  repository = table;
  max_retry = tries;
  known = λ _. true;
  is_id_valid = λ id. str_eq id "a";
}

-- A world whose next call of the table ends in a deadlock.
abbrev pub world : List Task → World Table
world row = record {
  repo = record { deadlocked = true; row = row };
  reported = [];
  published = [];
  slept = 0;
}

abbrev pub late : Task
late = record { id = "a"; exec_time = pos 5 }
