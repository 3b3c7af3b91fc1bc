-- ===== src/Builder/Steps.antt =====
-- What each constructor returns when its merge fills the options and no topic is registered yet.
use triggerhook.Base.{
  ℕ, ℤ, pos, negsuc, ltb_ℤ, int64, String, List, [], ◌∷◌, none, some, ok, update, false, arith, ◌≡◌,
  refl,
}
use triggerhook.Contracts.{topic_text}
use triggerhook.Settings.{Merge, Fills, make_chan, or_panics}
use triggerhook.Monitoring.Metrics.{
  Metric, MetricType, velocity_metric_type, integral_metric_type, integral, velocity, of_value, set,
  new_metric,
}
use triggerhook.Monitoring.Registry.{Monitoring, init, publish, listen}
use triggerhook.Connection
use triggerhook.Connection.{Driver, Client, data_source_name_of, limit}
use triggerhook.Monitoring.New.{subscribe}
use triggerhook.TaskManager.New.{Startup, Started}
use triggerhook.TaskManager.New as TaskManager
use triggerhook.Preloader.New.{Preloader}
use triggerhook.Preloader.New as PreloaderService
use triggerhook.Waiting.New.{WaitingService}
use triggerhook.Waiting.TaskHeap.{new_prioritized_task, empty}
use triggerhook.Waiting.New as Waiting
use triggerhook.Waiting.Items.{items_heap}
use triggerhook.Container.Heap
use triggerhook.Sender.New.{SenderService}
use triggerhook.Sender.New as Sender

-- A topic with a fresh metric.
abbrev pub with : String → Metric → Monitoring → Monitoring
with topic metric m = record m { metrics = update m.metrics topic (some metric) }

abbrev IsFree : String → Monitoring → Type 0
IsFree topic m = m.metrics topic ≡ none

-- What the calls of the monitoring come to for such a topic.
init-free :
    (topic : String) (t : MetricType) (m : Monitoring)
    → IsFree topic m
    → or_panics (init topic t m) ≡ ok (with topic (new_metric t) m)
unfolding init
init-free topic t m free = rw (init, free) refl

listen-free :
    (topic : String) (m : Monitoring)
    → IsFree topic m
    → or_panics (listen topic m) ≡ ok (with topic (of_value (pos 0)) m)
unfolding listen
listen-free topic m free = rw (listen, free) refl

pub subscribe-ok :
    (cap : ℤ) (topics : List String)
    → ltb_ℤ cap (pos 0) ≡ false
    → (chs : List (String × ℕ)) × (subscribe cap topics ≡ ok chs)
unfolding subscribe
subscribe-ok cap [] h = ([], refl)
subscribe-ok (pos n) (t ∷ rest) h =
    let (chs, e) = subscribe-ok (pos n) rest h in ((t, n) ∷ chs, rw e refl)
subscribe-ok (negsuc n) (t ∷ rest) h = absurd (ground (arith, h))

pub make_chan-ok : (cap : ℤ) → ltb_ℤ cap (pos 0) ≡ false → (n : ℕ) × (make_chan cap ≡ ok n)
make_chan-ok (pos n) h = (n, refl)
make_chan-ok (negsuc n) h = absurd (ground (arith, h))

pub new_connection :
    {merge : Merge Connection.Options} (laws : Fills Connection.Options Connection.filled merge)
    (driver : Driver) (c : Connection.Options)
    → let o = Connection.filled c Connection.default_options in
      driver.open_error (data_source_name_of o) ≡ none
      → driver.ping_error (data_source_name_of o) ≡ none
      → Connection.new merge driver (some c)
        ≡ ok (record {
          data_source_name = data_source_name_of o;
          max_idle_conns = limit o.max_idle_conns;
          max_open_conns = limit o.max_open_conns;
        })
unfolding Connection.new Connection.connect
new_connection laws driver c opens pings = rw (laws c, opens, pings) refl

pub new_preloader :
    {merge : Merge PreloaderService.Options}
    (laws : Fills PreloaderService.Options PreloaderService.filled merge)
    (c : PreloaderService.Options) (m : Monitoring)
    → IsFree "creating_rate" m
    → IsFree "preloading_rate" m
    → PreloaderService.new merge (some c) m
      ≡ ok (
        PreloaderService.of_options (PreloaderService.filled c PreloaderService.default_options),
        with "preloading_rate" (velocity (pos 0)) (with "creating_rate" (velocity (pos 0)) m),
      )
unfolding PreloaderService.new topic_text new_metric
new_preloader laws c m creating preloading =
    let m1 = with "creating_rate" (velocity (pos 0)) m in
    rw
      (
        laws c,
        init-free "creating_rate" velocity_metric_type m creating,
        init-free "preloading_rate" velocity_metric_type m1 preloading,
      )
      refl

pub new_waiting :
    {merge : Merge Waiting.Options} (laws : Fills Waiting.Options Waiting.filled merge)
    (c : Waiting.Options) (m : Monitoring)
    → IsFree "preloaded" m
    → IsFree "deleting_rate" m
    → Waiting.new merge (some c) m
      ≡ ok (
        record {
          tasks_waiting_list = empty;
          greedy_processing_limit =
              (Waiting.filled c Waiting.default_options).greedy_processing_limit;
        },
        with "deleting_rate" (velocity (pos 0)) (with "preloaded" (of_value (pos 0)) m),
      )
unfolding Waiting.new topic_text new_prioritized_task new_metric Heap.init items_heap
new_waiting laws c m listened deleting =
    let m1 = with "preloaded" (of_value (pos 0)) m in
    rw
      (
        laws c,
        listen-free "preloaded" m listened,
        init-free "deleting_rate" velocity_metric_type m1 deleting,
      )
      refl

pub new_sender :
    {merge : Merge Sender.Options} (laws : Fills Sender.Options Sender.filled merge)
    (c : Sender.Options) (m : Monitoring)
    → IsFree "confirmation_rate" m
    → IsFree "sending_rate" m
    → IsFree "waiting_for_confirmation" m
    → {n : ℕ} → make_chan (Sender.filled c Sender.default_options).batch_max_items ≡ ok n
    → Sender.new merge (some c) m
      ≡ ok (
        Sender.of_options (Sender.filled c Sender.default_options) n,
        with "waiting_for_confirmation" (integral (pos 0)) (
            with "sending_rate" (velocity (pos 0)) (with "confirmation_rate" (velocity (pos 0)) m)),
      )
unfolding Sender.new topic_text new_metric
new_sender laws c m confirming sending waiting e =
    let m1 = with "confirmation_rate" (velocity (pos 0)) m in
    let m2 = with "sending_rate" (velocity (pos 0)) m1 in
    rw
      (
        laws c,
        init-free "confirmation_rate" velocity_metric_type m confirming,
        init-free "sending_rate" velocity_metric_type m1 sending,
        init-free "waiting_for_confirmation" integral_metric_type m2 waiting,
        e,
      )
      refl

pub new_task_manager :
    {R : Type 0} {merge : Merge TaskManager.Options}
    (laws : Fills TaskManager.Options TaskManager.filled merge) (startup : Startup R)
    (c : TaskManager.Options) (r : R) (m : Monitoring) {r1 r2 : R} {n : ℤ}
    → startup.up r ≡ (none, r1)
    → startup.count r1 ≡ (n, none, r2)
    → IsFree "all" m
    → TaskManager.new merge startup (some c) r m
      ≡ ok (record {
        max_retry = (TaskManager.filled c TaskManager.default_options).max_retry;
        time_gap_between_retry =
            (TaskManager.filled c TaskManager.default_options).time_gap_between_retry;
        repo = r2;
        monitoring =
            with "all" (set (int64 n) (integral (pos 0))) (with "all" (integral (pos 0)) m);
      })
unfolding TaskManager.new topic_text new_metric publish
new_task_manager laws startup c r m ups counts free =
    rw (laws c, ups, counts, init-free "all" integral_metric_type m free) refl
