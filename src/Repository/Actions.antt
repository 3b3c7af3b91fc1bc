-- ===== src/Repository/Actions.antt =====
-- Create, FindBySecToExecTime and Delete in any order.
use triggerhook.Base.{
  ℤ, List, [], ◌∷◌, Bool, Option, Option-cases, inl, inr, sym, ap, refl, ◌≡◌, subst, Run, ok, ◌>>=◌,
  Returns, returns, Returns-bind,
}
use triggerhook.Domain.{Task}
use triggerhook.Contracts.Errors.{RepoError}
use triggerhook.Repository.Tables.{Db}
use triggerhook.Repository.Failures.{MysqlRepository, settings_of}
use triggerhook.Repository.Capacity.{
  IsRoomy, create_task-IsRoomy, set_taken-IsRoomy, delete_rows-IsRoomy, delete_collections-IsRoomy,
}
use triggerhook.Repository.Create.{CreateFailures, create_task, create}
use triggerhook.Repository.Find.{FindFailures, select_due, find_by_sec_to_exec_time}
use triggerhook.Repository.Delete.{DeleteFailures, delete, empty_ids}
use triggerhook.Repository.Search.{ids_of}
use triggerhook.Repository.Takes.{takes, fails, leaks, find-SearchEnd}
use triggerhook.Repository.Linked.{IsLinked, create_task-IsLinked, set_taken-ids}
use triggerhook.Repository.Cleaning.{
  Deletion, Fits, delete-Returns, deletes, fails_to, Shrunk, as_before, emptied,
}

-- A call of the repository, with the failures that it meets.
pub data Action : Type 0 where
  creates : CreateFailures → Task → Bool → Action
  finds : FindFailures → ℤ → Action
  deletes_tasks : DeleteFailures → ℤ → List Task → Action

unfoldable pub act : Action → MysqlRepository → Run MysqlRepository
unfolding create find_by_sec_to_exec_time delete
act (creates f task is_taken) r = ok (create f task is_taken r).1
act (finds f limit) r = ok (find_by_sec_to_exec_time f limit r).repository
act (deletes_tasks f now tasks) r = delete f now tasks r >>= λ (_, _, r'). ok r'

unfoldable pub acts : List Action → MysqlRepository → Run MysqlRepository
unfolding act
acts [] r = ok r
acts (a ∷ rest) r = act a r >>= acts rest

-- The foreign key holds, no collection has more tasks than the limit allows, and the cleaning frequency
-- is one that an int32 holds.
pub record IsSound (r : MysqlRepository) : Type 0 where
  pub linked : IsLinked r.db
  pub roomy : IsRoomy r.max_count_tasks_in_collection r.db
  pub fits : Fits (r.cleaning_frequency)

-- A repository with the same settings and this database.
same_settings :
    (r : MysqlRepository) {r' : MysqlRepository} {db : Db}
    → settings_of r' ≡ settings_of r
    → r'.db ≡ db
    → IsLinked db
    → IsRoomy r.max_count_tasks_in_collection db
    → Fits (r.cleaning_frequency)
    → IsSound r'
same_settings r {db = db} s e l m f = record {
  linked = subst IsLinked (sym e) l;
  roomy = subst (IsRoomy _) (sym e) (subst (λ limit. IsRoomy limit db) (sym (ap (λ x. x.1) s)) m);
  fits = subst Fits (sym (ap (λ x. x.0) s)) f;
}

create-IsSound :
    (f : CreateFailures) (task : Task) (is_taken : Bool) (r : MysqlRepository)
    → IsSound r
    → IsSound (create f task is_taken r).1
unfolding create
create-IsSound f task is_taken r s =
    let limit = r.max_count_tasks_in_collection in
    let stored = create_task f r.app_instance_id task is_taken limit r.db in
    let l = create_task-IsLinked f r.app_instance_id task is_taken limit r.db s.linked in
    let m = create_task-IsRoomy f r.app_instance_id task is_taken limit r.db s.linked s.roomy in
    elim (Option-cases stored.0) [
      | inl h ↦ rw (create, h) (record { linked = l; roomy = m; fits = s.fits })
      | inr (e, h) ↦ rw (create, h) (record { linked = l; roomy = m; fits = s.fits })
    ]

find-IsSound :
    (f : FindFailures) (limit : ℤ) (r : MysqlRepository)
    → IsSound r
    → IsSound (find_by_sec_to_exec_time f limit r).repository
find-IsSound f limit r s =
    let ids = ids_of (select_due limit r.app_instance_id r.db.collections) in
    elim (find-SearchEnd f r limit) [
      | takes _ _ _ _ e kept ↦
          same_settings r kept.settings e
            (record {
              rows = rw (set_taken-ids r.app_instance_id ids r.db.collections) s.linked.rows;
            })
            (set_taken-IsRoomy r.app_instance_id ids r.max_count_tasks_in_collection r.db s.roomy)
            s.fits
      | fails _ _ _ _ e kept ↦ same_settings r kept.settings e s.linked s.roomy s.fits
      | leaks _ _ _ _ _ e kept ↦ same_settings r kept.settings e s.linked s.roomy s.fits
    ]

Shrunk-IsRoomy : {limit : ℤ} {db db' : Db} → Shrunk db db' → IsRoomy limit db → IsRoomy limit db'
Shrunk-IsRoomy as_before m = m
Shrunk-IsRoomy {limit} {db} (emptied now) m =
    delete_collections-IsRoomy (empty_ids now db.rows db.collections) limit db m

Deletion-IsSound :
    {tasks : List Task} {r : MysqlRepository} {t : ℤ × Option RepoError × MysqlRepository}
    → IsSound r
    → Deletion tasks r t
    → IsSound t.2
Deletion-IsSound {tasks} {r} s (deletes _ _ l e h) =
    same_settings r e refl (l s.linked)
      (Shrunk-IsRoomy h (delete_rows-IsRoomy tasks r.max_count_tasks_in_collection r.db s.roomy))
      s.fits
Deletion-IsSound {r = r} s (fails_to _ q e) = same_settings r e q s.linked s.roomy s.fits

delete-IsSound :
    (f : DeleteFailures) (now : ℤ) (tasks : List Task) (r : MysqlRepository)
    → IsSound r
    → Returns IsSound (act (deletes_tasks f now tasks) r)
unfolding act
delete-IsSound f now tasks r s =
    Returns-bind {k = λ (_, _, r'). ok r'} (delete-Returns f now tasks r s.fits)
      (λ t d. returns (Deletion-IsSound s d))

-- Any sequence of Create, FindBySecToExecTime and Delete with its cleaning, with any failures of
-- their statements, returns without a panic and keeps that every task has its collection, that the
-- id of every collection is below the next one, and that no collection has more tasks than
-- MaxCountTasksInCollection, or one where that is lower. This is for a repository that starts with
-- these and a cleaning frequency below 2^31.
pub acts-IsSound :
    (actions : List Action) (r : MysqlRepository) → IsSound r → Returns IsSound (acts actions r)
unfolding acts act
acts-IsSound [] r s = returns s
acts-IsSound (creates f task is_taken ∷ rest) r s =
    acts-IsSound rest (create f task is_taken r).1 (create-IsSound f task is_taken r s)
acts-IsSound (finds f limit ∷ rest) r s =
    acts-IsSound rest (find_by_sec_to_exec_time f limit r).repository (find-IsSound f limit r s)
acts-IsSound (deletes_tasks f now tasks ∷ rest) r s =
    Returns-bind {k = acts rest} (delete-IsSound f now tasks r s) (acts-IsSound rest)
