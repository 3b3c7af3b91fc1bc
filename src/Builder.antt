-- ===== src/Builder.antt =====
-- builder.go: Build, which makes the services in their order and hands each to those that use it.
-- The services share one monitoring, whose topics they register as they are made.
pub mod Schema
pub mod Steps
pub mod Starts
pub mod Working
pub mod Fails
mod Tests
use triggerhook.Base.{String, Bool, Option, some, Run, ok, ◌>>=◌}
use triggerhook.Settings.{Merge, Fills}
use triggerhook.Connection.{Driver, Client}
use triggerhook.Connection
use triggerhook.ErrorService.New.{EventHandler}
use triggerhook.ErrorService.New as ErrorService
use triggerhook.Monitoring.New.{MonitoringService}
use triggerhook.Monitoring.New as MonitoringService
use triggerhook.Monitoring.Registry.{Monitoring}
use triggerhook.Repository.Failures.{SqlError, MysqlRepository}
use triggerhook.Repository.Up.{UpFailures, up}
use triggerhook.Repository.Delete.{count}
use triggerhook.Repository.New as Repository
use triggerhook.TaskManager.New.{Startup, Started}
use triggerhook.TaskManager.New as TaskManager
use triggerhook.Preloader.New.{Preloader}
use triggerhook.Preloader.New as PreloaderService
use triggerhook.Waiting.New.{WaitingService}
use triggerhook.Waiting.New as Waiting
use triggerhook.TaskManager.Interface.{Repository as RepositoryInterface}
use triggerhook.TriggerHook.{TriggerHook}
use triggerhook.Sender.New.{SenderService}
use triggerhook.Sender.New as Sender

pub record Config : Type 0 where
  pub connection : Connection.Options
  pub repository_options : Repository.Options
  pub error_service_options : ErrorService.Options
  pub monitoring_service_options : MonitoringService.Options
  pub sender_service_options : Sender.Options
  pub waiting_service_options : Waiting.Options
  pub task_manager_options : TaskManager.Options
  pub preloader_service_options : PreloaderService.Options

-- `mergo.Merge`, for the options of each package.
pub record Mergo : Type 0 where
  pub connection : Merge Connection.Options
  pub repository : Merge Repository.Options
  pub error_service : Merge ErrorService.Options
  pub monitoring_service : Merge MonitoringService.Options
  pub sender_service : Merge Sender.Options
  pub waiting_service : Merge Waiting.Options
  pub task_manager : Merge TaskManager.Options
  pub preloader_service : Merge PreloaderService.Options

-- What Build meets outside: the driver, `util.NewId()`, and the failures of Up and of Count.
pub record Outside : Type 0 where
  pub driver : Driver
  pub new_id : String
  pub in_up : UpFailures
  pub in_count : Option SqlError

-- The services, and the monitoring that they share.
pub record Built : Type 0 where
  pub client : Client
  pub error_service : EventHandler
  pub monitoring_service : MonitoringService
  pub task_manager : Started MysqlRepository
  pub preloader_service : Preloader
  pub waiting_service : WaitingService
  pub sender_service : SenderService
  pub monitoring : Monitoring

-- Up and Count of the mysqlRepository.
unfoldable pub startup_of : Outside → Startup MysqlRepository
unfolding up count
startup_of outside = record {
  up = λ r. let s = up outside.in_up r in (s.err, s.repository);
  count = count outside.in_count;
}

unfoldable pub build : Mergo → Outside → Config → Run Built
unfolding startup_of Connection.new ErrorService.new MonitoringService.new Repository.new
    TaskManager.new PreloaderService.new Waiting.new Sender.new
build mergo outside config = do
  error_service ← ErrorService.new mergo.error_service (some config.error_service_options)
  monitoring_service ←
      MonitoringService.new mergo.monitoring_service (some config.monitoring_service_options)
  client ← Connection.new mergo.connection outside.driver (some config.connection)
  repository ←
      Repository.new mergo.repository (outside.driver.database client.data_source_name)
        outside.new_id (some config.repository_options)
  task_manager ←
      TaskManager.new mergo.task_manager (startup_of outside) (some config.task_manager_options)
        repository monitoring_service.monitoring
  (preloader, m1) ←
      PreloaderService.new mergo.preloader_service (some config.preloader_service_options)
        task_manager.monitoring
  (waiting, m2) ← Waiting.new mergo.waiting_service (some config.waiting_service_options) m1
  (sender, m3) ← Sender.new mergo.sender_service (some config.sender_service_options) m2
  ok (record {
    client = client;
    error_service = error_service;
    monitoring_service = monitoring_service;
    task_manager = task_manager;
    preloader_service = preloader;
    waiting_service = waiting;
    sender_service = sender;
    monitoring = m3;
  })

-- New of trigger_hook.go, over the services, where `repository` has the methods of the
-- mysqlRepository that the task manager calls, and `is_id_valid` is `util.IsIdValid`.
unfoldable pub hook_of :
    {C : Type 0}
    → RepositoryInterface MysqlRepository C
    → (String → Bool)
    → Built
    → TriggerHook MysqlRepository C
unfolding TaskManager.of_started
hook_of repository is_id_valid b = record {
  preloading_service = b.preloader_service.service;
  task_manager = TaskManager.of_started repository is_id_valid b.monitoring b.task_manager;
}

-- What the library's documentation says of `mergo.Merge`, for each type of options.
pub record MergoLaws (mergo : Mergo) : Type 0 where
  pub connection : Fills Connection.Options Connection.filled mergo.connection
  pub repository : Fills Repository.Options Repository.filled mergo.repository
  pub error_service : Fills ErrorService.Options ErrorService.filled mergo.error_service
  pub monitoring_service :
      Fills MonitoringService.Options MonitoringService.filled mergo.monitoring_service
  pub sender_service : Fills Sender.Options Sender.filled mergo.sender_service
  pub waiting_service : Fills Waiting.Options Waiting.filled mergo.waiting_service
  pub task_manager : Fills TaskManager.Options TaskManager.filled mergo.task_manager
  pub preloader_service :
      Fills PreloaderService.Options PreloaderService.filled mergo.preloader_service

-- Each option of the configuration, or its default if it is zero.
unfoldable pub settings : Config → Config
unfolding Connection.filled Repository.filled ErrorService.filled MonitoringService.filled
    Sender.filled Waiting.filled TaskManager.filled PreloaderService.filled
settings c = record {
  connection = Connection.filled c.connection Connection.default_options;
  repository_options = Repository.filled c.repository_options Repository.default_options;
  error_service_options = ErrorService.filled c.error_service_options ErrorService.default_options;
  monitoring_service_options =
      MonitoringService.filled c.monitoring_service_options MonitoringService.default_options;
  sender_service_options = Sender.filled c.sender_service_options Sender.default_options;
  waiting_service_options = Waiting.filled c.waiting_service_options Waiting.default_options;
  task_manager_options = TaskManager.filled c.task_manager_options TaskManager.default_options;
  preloader_service_options =
      PreloaderService.filled c.preloader_service_options PreloaderService.default_options;
}
