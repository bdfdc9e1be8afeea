-- ===== src/Telemetry.antt =====
-- c5store_rust/src/telemetry.rs: the traits of loggers and of recorders of counters, the logger that a
-- store has unless its options name one, and the recorder that records nothing. Both write to a world
-- `W` that the store itself never reads. The macros of the log crate are a parameter, and so are a
-- `Duration`, the rational numbers of the num_rational crate and the trait objects of errors.
pub mod Observed
pub mod Unseen
pub mod Warnings
use c5store.Base.{ℕ, Option, none, some, List}
use c5store.Base.Int.{ℤ}
use c5store.Text.{Str}

pub data TagValue : Type 0 where
  string : Str → TagValue
  typed_bytes : Str → List ℕ → TagValue

abbrev pub StatsTags : Type 0
StatsTags = List (Str × TagValue)

-- A signed machine integer is a ℤ, an unsigned one an ℕ.
data GaugeValue (Rational32 Rational64 BigRational : Type 0) : Type 0 where
  int8 int16 int32 int64 int128 : ℤ → GaugeValue Rational32 Rational64 BigRational
  uint8 uint16 uint32 uint64 uint128 : ℕ → GaugeValue Rational32 Rational64 BigRational
  r32 : Rational32 → GaugeValue Rational32 Rational64 BigRational
  r64 : Rational64 → GaugeValue Rational32 Rational64 BigRational
  brt : BigRational → GaugeValue Rational32 Rational64 BigRational

pub record Logger (Error W : Type 0) : Type 0 where
  pub debug : Str → W → W
  pub info : Str → W → W
  pub warn : Str → W → W
  pub error : Str → Option Error → W → W

pub record StatsRecorder (Duration Gauge W : Type 0) : Type 0 where
  pub record_counter_increment : StatsTags → Str → W → W
  pub record_timer : StatsTags → Str → Duration → W → W
  pub record_gauge : StatsTags → Str → Gauge → W → W

-- `debug!("{}", message)` and the like, of the log crate.
pub record LogMacros (W : Type 0) : Type 0 where
  pub debug : Str → W → W
  pub info : Str → W → W
  pub warn : Str → W → W
  pub error : Str → W → W

module _ {Error W : Type 0} where
  -- `impl Logger for ConsoleLogger`: the error itself is not logged.
  unfoldable pub console_logger : LogMacros W → Logger Error W
  console_logger log = record {
    debug = λ message. log.debug message;
    info = λ message. log.info message;
    warn = λ message. log.warn message;
    error = λ message error. log.error message;
  }

module _ {Duration Gauge W : Type 0} where
  -- `impl StatsRecorder for StatsRecorderStub`
  unfoldable pub stats_recorder_stub : StatsRecorder Duration Gauge W
  stats_recorder_stub = record {
    record_counter_increment = λ tags name w. w;
    record_timer = λ tags name value w. w;
    record_gauge = λ tags name value w. w;
  }

module _ {Error Duration Gauge W : Type 0} where
  -- What `create_c5store` fills in for the two that the options leave out.
  unfoldable pub with_defaults :
      LogMacros W
      → Option (Logger Error W)
      → Option (StatsRecorder Duration Gauge W)
      → Logger Error W × StatsRecorder Duration Gauge W
  unfolding console_logger stats_recorder_stub
  with_defaults log none none = (console_logger log, stats_recorder_stub)
  with_defaults log none (some stats) = (console_logger log, stats)
  with_defaults log (some logger) none = (logger, stats_recorder_stub)
  with_defaults log (some logger) (some stats) = (logger, stats)
