-- ===== src/Builder/Tests.antt =====
-- Builds from a configuration that is empty, and how the options are filled.
use triggerhook.Base.{pos, [], ◌∷◌, Option, none, some, panic, ◌≡◌, refl}
use triggerhook.Settings.{fill_int, fill_text}
use triggerhook.Connection.{Driver, data_source_name_of}
use triggerhook.Connection
use triggerhook.ErrorService.New as ErrorService
use triggerhook.Monitoring.New as MonitoringService
use triggerhook.Repository.Failures.{SqlError}
use triggerhook.Repository.Up.{up}
use triggerhook.Repository.New as Repository
use triggerhook.TaskManager.New as TaskManager
use triggerhook.Preloader.New as PreloaderService
use triggerhook.Waiting.New as Waiting
use triggerhook.Sender.New as Sender
use triggerhook.Builder.{Config, Mergo, MergoLaws, Outside, build, settings}
use triggerhook.Builder.Starts.{fresh, Conditions, Starts}
use triggerhook.Builder.Working.{Working}
use triggerhook.Builder.Fails.{pinging, build-panic}

abbrev nothing_configured : Config
nothing_configured = record {
  connection = Connection.zero_options;
  repository_options = Repository.zero_options;
  error_service_options = ErrorService.zero_options;
  monitoring_service_options = MonitoringService.zero_options;
  sender_service_options = Sender.zero_options;
  waiting_service_options = Waiting.zero_options;
  task_manager_options = TaskManager.zero_options;
  preloader_service_options = PreloaderService.zero_options;
}

abbrev mergo : Mergo
mergo = record {
  connection = λ dst src. some (Connection.filled dst src);
  repository = λ dst src. some (Repository.filled dst src);
  error_service = λ dst src. some (ErrorService.filled dst src);
  monitoring_service = λ dst src. some (MonitoringService.filled dst src);
  sender_service = λ dst src. some (Sender.filled dst src);
  waiting_service = λ dst src. some (Waiting.filled dst src);
  task_manager = λ dst src. some (TaskManager.filled dst src);
  preloader_service = λ dst src. some (PreloaderService.filled dst src);
}

mergo_laws : MergoLaws mergo
mergo_laws = record {
  connection = λ _ _. refl;
  repository = λ _ _. refl;
  error_service = λ _ _. refl;
  monitoring_service = λ _ _. refl;
  sender_service = λ _ _. refl;
  waiting_service = λ _ _. refl;
  task_manager = λ _ _. refl;
  preloader_service = λ _ _. refl;
}

-- A database of two tasks, whose server answers or does not.
abbrev outside : Option SqlError → Outside
outside ping_error = record {
  driver = record {
    open_error = λ _. none;
    ping_error = λ _. ping_error;
    database = λ _. record {
      collections = record { id = 1; exec_time = pos 5; taken_by_instance = "" } ∷ [];
      rows =
          record { uuid = "a"; collection_id = 1 } ∷ record { uuid = "b"; collection_id = 1 } ∷ [];
      next_id = 2;
    };
  };
  new_id = "instance";
  in_up = record {
    in_begin = none;
    in_collection_table = none;
    in_task_table = none;
    in_procedure = none;
    in_commit = none;
    in_rollback = none;
  };
  in_count = none;
}

data_source :
    data_source_name_of (settings nothing_configured).connection
    ≡ "root:@tcp(127.0.0.1:3306)/task?charset=utf8"
unfolding data_source_name_of settings Connection.filled fill_text
data_source = refl

conditions : Conditions (outside none) nothing_configured
unfolding settings Sender.filled MonitoringService.filled fill_int up fresh
conditions = record {
  opens = refl;
  pings = refl;
  ups = refl;
  counts = refl;
  batches = refl;
  events = refl;
}

abbrev refused : SqlError
refused = record { number = none; text = "connection refused" }

build-panic_example : build mergo (outside (some refused)) nothing_configured ≡ panic
build-panic_example =
    build-panic (outside (some refused)) nothing_configured mergo_laws conditions.events
      (pinging refused refl refl)
