-- ===== src/TriggerHook/Tests.antt =====
-- A task that is created and deleted again, over the table of one row.
use triggerhook.Base.{◌≡◌, refl, pos, [], none, arith}
use triggerhook.TaskManager.OneRow.{Table, manager, laws, world, late}
use triggerhook.TaskManager.Operations.{prepared, try_create}
use triggerhook.TaskManager.Laws.{is_named}
use triggerhook.Sender.New.{no_handles}
use triggerhook.TriggerHook.{TriggerHook, State, create_ctx, delete_ctx, consume}
use triggerhook.TriggerHook.Undo.{Undone, create-delete}

abbrev hook : TriggerHook Table (Unit {0})
hook = record {
  preloading_service = record {
    time_preload = pos 5000000000;
    coef_time_preload_of_new_task = pos 2;
  };
  task_manager = manager (pos 3);
}

abbrev nothing_stored : State Table
nothing_stored = record {
  world = world [];
  preloaded_tasks = [];
  canceled_tasks = [];
  handles = no_handles;
}

created : (create_ctx hook (pos 9) (pos 9) "b" late nothing_stored).0 ≡ none
unfolding create_ctx try_create
created = refl

lent_twice : (consume hook late (consume hook late nothing_stored).1).0 ≡ 1
unfolding consume
lent_twice = refl

create-delete_example :
    let task = prepared (pos 9) "b" late in
    let r = create_ctx hook (pos 9) (pos 9) "b" late nothing_stored in
    Undone laws.contents task
      (laws.contents nothing_stored.world.repo)
      r.2
      (delete_ctx hook task.id r.2)
unfolding prepared is_named
create-delete_example =
    create-delete hook laws (omega arith) refl (pos 9) (pos 9) "b" late nothing_stored created refl
