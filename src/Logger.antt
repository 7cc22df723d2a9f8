-- ===== src/Logger.antt =====
-- Logging (logger.go, stdlog.go, logrus.go, hclogLogger of store.go): levels and what passes them. The
-- lines that are printed stand in Lines, over the decimal numbers of Decimal; Inferred is the adapter
-- for *log.Logger, Hclog the one for the raft library, Adapted the one for logrus, and Standard the
-- logger that prints to the console. Formatting by
-- package fmt is a parameter.
pub mod Decimal
pub mod Lines
pub mod Inferred
pub mod Hclog
pub mod Adapted
pub mod Standard
use hraftd.Common.{ℕ, Bool, List, [], ◌∷◌, ◌++◌, eqb, leb, if◌then◌else◌}
use hraftd.Common.Text.{Text, lit, ◌==◌}

-- LogLevel, a number: any number is one
abbrev pub LogLevel : Type 0
LogLevel = ℕ

abbrev pub level_debug : LogLevel
level_debug = 0

abbrev pub level_info : LogLevel
level_info = 1

abbrev pub level_warn : LogLevel
level_warn = 2

abbrev pub level_error : LogLevel
level_error = 3

-- ParseLogLevel
unfoldable pub parse_log_level : Text → LogLevel
parse_log_level l =
    if l == lit "debug"
    then level_debug
    else if l == lit "info"
    then level_info
    else if l == lit "warn"
    then level_warn
    else if l == lit "error"
    then level_error
    else level_info

-- LogLevel.String
unfoldable pub level_name : LogLevel → Text
level_name l =
    if eqb l level_debug
    then lit "debug"
    else if eqb l level_info
    then lit "info"
    else if eqb l level_warn
    then lit "warn"
    else if eqb l level_error
    then lit "error"
    else lit "unknown"

-- Logger: the interface, over what the logger keeps; `Data` is what a format's verbs are given
pub record Logger (Data : Type 0) : Type 1 where
  pub State : Type 0
  pub set_log_level : LogLevel → State → State
  pub get_log_level : State → LogLevel
  pub logf : LogLevel → Text → List Data → State → State

-- LevelLoggerAdapter
module _ {Data : Type 0} (logger : Logger Data) where
  open logger use {State, logf}

  unfoldable pub debugf : Text → List Data → State → State
  debugf format args s = logf level_debug format args s

  unfoldable pub printf : Text → List Data → State → State
  printf format args s = logf level_info format args s

  unfoldable pub infof : Text → List Data → State → State
  infof format args s = logf level_info format args s

  unfoldable pub warnf : Text → List Data → State → State
  warnf format args s = logf level_warn format args s

  unfoldable pub errorf : Text → List Data → State → State
  errorf format args s = logf level_error format args s

-- Writer: what is handed to Print, already as a text
pub record Writer : Type 1 where
  pub State : Type 0
  pub print : Text → State → State

-- LevelLogger: the interface; Panicf also gives the message that it panics with
pub record LevelLogger (Data : Type 0) : Type 1 where
  pub State : Type 0
  pub printf : Text → List Data → State → State
  pub debugf : Text → List Data → State → State
  pub infof : Text → List Data → State → State
  pub warnf : Text → List Data → State → State
  pub errorf : Text → List Data → State → State
  pub panicf : Text → List Data → State → Text × State

-- fmt.Sprintf
module _ {Data : Type 0} (sprintf : Text → List Data → Text) where
  -- LevelLoggerAdapter.Panicf: the message of the panic, and what is logged before it
  unfoldable pub panicf :
      (logger : Logger Data) → Text → List Data → logger.State → Text × logger.State
  panicf logger format args s = (sprintf format args, logger.logf level_error format args s)

  -- LevelLoggerAdapter as a LevelLogger
  abbrev pub level_logger : Logger Data → LevelLogger Data
  level_logger logger = record {
    State = logger.State;
    printf = printf logger;
    debugf = debugf logger;
    infof = infof logger;
    warnf = warnf logger;
    errorf = errorf logger;
    panicf = panicf logger;
  }

  module _ (w : Writer) where
    -- SLogger
    pub record SLogger : Type 0 where
      pub level : LogLevel
      pub writer : w.State

    -- SLogger.Logf
    unfoldable pub slogger_logf : LogLevel → Text → List Data → SLogger → SLogger
    slogger_logf level format args l =
        if leb l.level level
        then record l {
          writer =
              w.print (lit "[" ++ (level_name level ++ (lit "] " ++ sprintf format args))) l.writer;
        }
        else l

    -- SLogger as a Logger: SetLogLevel, GetLogLevel, Logf
    abbrev pub slogger : Logger Data
    slogger = record {
      State = SLogger;
      set_log_level = λ level l. record l { level = level };
      get_log_level = λ l. l.level;
      logf = slogger_logf;
    }
