-- ===== src/Builder/Fails.antt =====
-- How Build ends when something outside fails.
use triggerhook.Base.{pos, ltb_ℤ, none, some, panic, false, ◌≡◌, refl, ap}
use triggerhook.Contracts.Errors.{RepoError, counting_tasks}
use triggerhook.Connection.{data_source_name_of}
use triggerhook.Connection
use triggerhook.ErrorService.New as ErrorService
use triggerhook.Monitoring.New as MonitoringService
use triggerhook.Repository.Failures.{SqlError, report}
use triggerhook.Repository.Delete.{count}
use triggerhook.Repository.Up.{up}
use triggerhook.Repository.New as Repository
use triggerhook.TaskManager.New as TaskManager
use triggerhook.Builder.{Config, MergoLaws, Mergo, Outside, settings, startup_of, build}
use triggerhook.Builder.Steps.{subscribe-ok}
use triggerhook.Builder.Starts.{fresh, upped, startup_ups}

-- The first call that fails.
pub data Failure (outside : Outside) (config : Config) : Type 0 where
  opening :
      (e : SqlError)
      → outside.driver.open_error (data_source_name_of (settings config).connection) ≡ some e
      → Failure outside config
  pinging :
      (e : SqlError)
      → outside.driver.open_error (data_source_name_of (settings config).connection) ≡ none
      → outside.driver.ping_error (data_source_name_of (settings config).connection) ≡ some e
      → Failure outside config
  upping :
      (e : RepoError)
      → outside.driver.open_error (data_source_name_of (settings config).connection) ≡ none
      → outside.driver.ping_error (data_source_name_of (settings config).connection) ≡ none
      → (up outside.in_up (fresh outside config)).err ≡ some e
      → Failure outside config
  counting :
      (e : SqlError)
      → outside.driver.open_error (data_source_name_of (settings config).connection) ≡ none
      → outside.driver.ping_error (data_source_name_of (settings config).connection) ≡ none
      → (up outside.in_up (fresh outside config)).err ≡ none
      → outside.in_count ≡ some e
      → Failure outside config

module _ (outside : Outside) (config : Config) where
  startup_fails :
      {e : RepoError}
      → (up outside.in_up (fresh outside config)).err ≡ some e
      → (startup_of outside).up (fresh outside config) ≡ (some e, upped outside config)
  unfolding startup_of
  startup_fails h = ap (λ e. (e, upped outside config)) h

  startup_count_fails :
      {e : SqlError}
      → outside.in_count ≡ some e
      → (startup_of outside).count (upped outside config)
        ≡ (pos 0, some counting_tasks, report e.text (upped outside config))
  unfolding startup_of count
  startup_count_fails h = rw h refl

  -- If mergo.Merge fills the options that are zero and the capacity of the channels of
  -- measurements is not negative, then Build panics whichever call is the first to fail: opening
  -- the connection, the ping, Up, or Count.
  pub build-panic :
      {mergo : Mergo}
      → MergoLaws mergo
      → ltb_ℤ (settings config).monitoring_service_options.event_cap (pos 0) ≡ false
      → Failure outside config
      → build mergo outside config ≡ panic
  unfolding build settings ErrorService.new MonitoringService.new Repository.new Connection.new
      Connection.connect TaskManager.new fresh
  build-panic {mergo} laws events f =
      let s = settings config in
      let (chs, subscribed) =
        subscribe-ok s.monitoring_service_options.event_cap
          s.monitoring_service_options.subscriptions events in
      let conn = laws.connection config.connection Connection.default_options in
      let repo = laws.repository config.repository_options Repository.default_options in
      rw
        (
          laws.error_service config.error_service_options ErrorService.default_options,
          laws.monitoring_service config.monitoring_service_options
              MonitoringService.default_options,
          subscribed,
        )
        (elim f [
          | opening e h ↦ rw (conn, h) refl
          | pinging e opens h ↦ rw (conn, opens, h) refl
          | upping e opens pings h ↦ rw (conn, opens, pings, repo, startup_fails h) refl
          | counting e opens pings ups h ↦
              rw
                (
                  conn,
                  opens,
                  pings,
                  repo,
                  startup_ups outside config ups,
                  laws.task_manager config.task_manager_options TaskManager.default_options,
                  startup_count_fails h,
                )
                refl
        ])
