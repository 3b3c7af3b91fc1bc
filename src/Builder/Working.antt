-- ===== src/Builder/Working.antt =====
-- What the services rely on in one another's settings and in the topics, once Build has returned.
use triggerhook.Base.{String, Bool, ◌<◌, ℤ, pos, ltb_ℤ, pos_part, List, none, ◌≡◌, false, true}
use triggerhook.Contracts.{all, Topic, topic_text}
use triggerhook.Monitoring.Registry.{Monitoring, publish}
use triggerhook.Monitoring.Kinds.{Call, calls}
use triggerhook.TaskManager.New.{is_known}
use triggerhook.Preloader.New as PreloaderService
use triggerhook.Builder.{Config, Built, hook_of}
use triggerhook.Repository.New as RepositoryService
use triggerhook.TaskManager.Interface.{Repository}
use triggerhook.TaskManager.New as TaskManager
use triggerhook.Repository.Failures.{MysqlRepository}

-- The numbers that a user configures, none of them negative.
pub record NotNegative (config : Config) : Type 0 where
  pub cleaning_frequency : ltb_ℤ config.repository_options.cleaning_frequency (pos 0) ≡ false
  pub max_count_tasks_in_collection :
      ltb_ℤ config.repository_options.max_count_tasks_in_collection (pos 0) ≡ false
  pub max_retry : ltb_ℤ config.task_manager_options.max_retry (pos 0) ≡ false
  pub batch_max_items : ltb_ℤ config.sender_service_options.batch_max_items (pos 0) ≡ false
  pub greedy_processing_limit :
      ltb_ℤ config.waiting_service_options.greedy_processing_limit (pos 0) ≡ false
  pub time_preload : ltb_ℤ config.preloader_service_options.time_preload (pos 0) ≡ false
  pub workers_count : ltb_ℤ config.preloader_service_options.workers_count (pos 0) ≡ false
  pub coef_time_preload_of_new_task :
      ltb_ℤ config.preloader_service_options.coef_time_preload_of_new_task (pos 0) ≡ false

-- What the services rely on: the topics, and settings above zero.
pub record Working (b : Built) : Type 0 where
  pub known : (topic : Topic) → is_known b.monitoring topic ≡ true
  pub publishes :
      (cs : List Call) (topic : Topic) (n : ℤ)
      → (publish (topic_text topic) n (calls cs b.monitoring)).0 ≡ none
  pub cleaning_frequency : 0 < pos_part b.task_manager.repo.cleaning_frequency
  pub max_count_tasks_in_collection : 0 < pos_part b.task_manager.repo.max_count_tasks_in_collection
  pub max_retry : 0 < pos_part b.task_manager.max_retry
  pub batch_max_items : 0 < pos_part b.sender_service.batch_max_items
  pub greedy_processing_limit : 0 < pos_part b.waiting_service.greedy_processing_limit
  pub time_preload : 0 < pos_part b.preloader_service.service.time_preload
  pub workers_count : 0 < pos_part b.preloader_service.workers_count
  pub coef_time_preload_of_new_task :
      0 < pos_part b.preloader_service.service.coef_time_preload_of_new_task

-- What the calls of the triggerHook rely on in its task manager.
pub hook_of-Ready :
    {C : Type 0} (repository : Repository MysqlRepository C) (is_id_valid : String → Bool)
    (b : Built)
    → Working b
    → let s = (hook_of repository is_id_valid b).task_manager in
      (0 < pos_part s.max_retry) × (s.known all ≡ true)
unfolding hook_of TaskManager.of_started
hook_of-Ready repository is_id_valid b w = (w.max_retry, w.known all)
