-- ===== src/Builder/Starts.antt =====
-- What Build leaves when nothing fails.
use triggerhook.Base.{ℤ, pos, ltb_ℤ, int64, ◌+ℤ◌, length, none, some, ◌≡◌, ap, false}
use triggerhook.Contracts.{
  Topic, waiting_for_confirmation, confirmation_rate, preloaded, preloading_rate, creating_rate,
  deleting_rate, sending_rate, all, topic_text,
}
use triggerhook.Monitoring.Metrics.{
  MetricType, velocity_metric_type, value_metric_type, integral_metric_type, integral, velocity,
  of_value, set,
}
use triggerhook.Monitoring.Kinds.{HasKind}
use triggerhook.Connection.{data_source_name_of}
use triggerhook.Builder.Steps.{with}
use triggerhook.Waiting.TaskHeap.{empty}
use triggerhook.Monitoring.Registry.{Monitoring}
use triggerhook.Preloader.New as PreloaderService
use triggerhook.Repository.New as Repository
use triggerhook.ErrorService.New as ErrorService
use triggerhook.Monitoring.New as MonitoringService
use triggerhook.Repository.Up.{up}
use triggerhook.Repository.New.{of_options}
use triggerhook.Repository.Failures.{MysqlRepository}
use triggerhook.Builder.{Config, Outside, Built, settings, startup_of}

-- The type that a topic is registered with.
abbrev pub type_of : Topic → MetricType
type_of waiting_for_confirmation = integral_metric_type
type_of confirmation_rate = velocity_metric_type
type_of preloaded = value_metric_type
type_of preloading_rate = velocity_metric_type
type_of creating_rate = velocity_metric_type
type_of deleting_rate = velocity_metric_type
type_of sending_rate = velocity_metric_type
type_of all = integral_metric_type

module _ (outside : Outside) (config : Config) where
  -- The repository before Up, and after it.
  unfoldable pub fresh : MysqlRepository
  unfolding data_source_name_of of_options
  fresh =
      of_options (outside.driver.database (data_source_name_of (settings config).connection))
        outside.new_id (settings config).repository_options

  abbrev pub upped : MysqlRepository
  upped = (up outside.in_up fresh).repository

-- Nothing that Build calls outside fails, and the capacities are ones that a channel can have.
pub record Conditions (outside : Outside) (config : Config) : Type 0 where
  pub opens : outside.driver.open_error (data_source_name_of (settings config).connection) ≡ none
  pub pings : outside.driver.ping_error (data_source_name_of (settings config).connection) ≡ none
  pub ups : (up outside.in_up (fresh outside config)).err ≡ none
  pub counts : outside.in_count ≡ none
  pub batches : ltb_ℤ (settings config).sender_service_options.batch_max_items (pos 0) ≡ false
  pub events : ltb_ℤ (settings config).monitoring_service_options.event_cap (pos 0) ≡ false

-- What Build leaves: every topic has its metric, that of all tasks with their number, the
-- waiting list is empty, and the services have their settings.
pub record Starts (outside : Outside) (config : Config) (b : Built) : Type 0 where
  pub topics : (topic : Topic) → HasKind (topic_text topic) (type_of topic) b.monitoring
  pub counted :
      b.monitoring.metrics (topic_text all)
      ≡ some (set (int64 (pos (length (upped outside config).db.rows))) (integral (pos 0)))
  pub list : b.waiting_service.tasks_waiting_list ≡ empty
  pub repository : b.task_manager.repo ≡ upped outside config
  pub max_retry : b.task_manager.max_retry ≡ (settings config).task_manager_options.max_retry
  pub preloader :
      b.preloader_service ≡ PreloaderService.of_options (settings config).preloader_service_options
  pub limit :
      b.waiting_service.greedy_processing_limit
      ≡ (settings config).waiting_service_options.greedy_processing_limit
  pub batches :
      b.sender_service.batch_max_items ≡ (settings config).sender_service_options.batch_max_items

-- The monitoring that the constructors leave.
all_topics : ℤ → Monitoring → Monitoring
all_topics stored m =
    let m1 = with "all" (integral (int64 (pos 0 +ℤ stored))) (with "all" (integral (pos 0)) m) in
    let m2 =
      with "preloading_rate" (velocity (pos 0)) (with "creating_rate" (velocity (pos 0)) m1) in
    let m3 = with "deleting_rate" (velocity (pos 0)) (with "preloaded" (of_value (pos 0)) m2) in
    with "waiting_for_confirmation" (integral (pos 0))
      (with "sending_rate" (velocity (pos 0)) (with "confirmation_rate" (velocity (pos 0)) m3))

module _ (outside : Outside) (config : Config) where
  pub startup_ups :
      (up outside.in_up (fresh outside config)).err ≡ none
      → (startup_of outside).up (fresh outside config) ≡ (none, upped outside config)
  unfolding startup_of
  startup_ups h = ap (λ e. (e, upped outside config)) h
