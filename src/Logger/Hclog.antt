-- ===== src/Logger/Hclog.antt =====
-- `hclogLogger` of store.go: the program's logger as one for the raft library. The levels are those of
-- package hclog. StandardLogger and StandardWriter give a writer with the method `write_line`.
use hraftd.Common.{Bool, false, Option, List, ◌++◌, leb}
use hraftd.Common.Text.{Text}
use hraftd.Logger.{
  LogLevel, level_debug, level_info, level_warn, level_error, Logger, debugf, infof, warnf, errorf,
}
use hraftd.Logger.Inferred.{StdlogAdapter, write_line}

pub data HclogLevel : Type 0 where
  no_level trace debug info warn error other : HclogLevel

-- hclogLogger.convertLevel
unfoldable pub convert_level : HclogLevel → LogLevel
convert_level trace = level_debug
convert_level debug = level_debug
convert_level no_level = level_info
convert_level info = level_info
convert_level warn = level_warn
convert_level error = level_error
convert_level other = level_info

module _ {Data : Type 0} (logger : Logger Data) where
  open logger use {State, get_log_level, set_log_level, logf}

  -- hclogLogger, without the logger that it hands on to
  pub record HclogLogger : Type 0 where
    pub args : List Data
    pub name : Text

  -- the methods Debug, Info, Warn, Error and Log, which use neither the arguments nor the name that
  -- the logger holds; Trace does nothing
  unfoldable pub hclog_debug : Text → List Data → State → State
  hclog_debug msg args s = debugf logger msg args s

  unfoldable pub hclog_info : Text → List Data → State → State
  hclog_info msg args s = infof logger msg args s

  unfoldable pub hclog_warn : Text → List Data → State → State
  hclog_warn msg args s = warnf logger msg args s

  unfoldable pub hclog_error : Text → List Data → State → State
  hclog_error msg args s = errorf logger msg args s

  unfoldable pub hclog_trace : Text → List Data → State → State
  hclog_trace msg args s = s

  unfoldable pub hclog_log : HclogLevel → Text → List Data → State → State
  hclog_log level msg args s = logf (convert_level level) msg args s

  -- IsTrace, IsDebug, IsInfo, IsWarn and IsError
  unfoldable pub is_trace : State → Bool
  is_trace s = false

  unfoldable pub is_debug : State → Bool
  is_debug s = leb (get_log_level s) level_debug

  unfoldable pub is_info : State → Bool
  is_info s = leb (get_log_level s) level_info

  unfoldable pub is_warn : State → Bool
  is_warn s = leb (get_log_level s) level_warn

  unfoldable pub is_error : State → Bool
  is_error s = leb (get_log_level s) level_error

  -- With, Named and ResetNamed
  unfoldable pub hclog_with : List Data → HclogLogger → HclogLogger
  hclog_with args h = record { args = args; name = h.name }

  unfoldable pub named : Text → HclogLogger → HclogLogger
  named name h = record { args = h.args; name = name ++ h.name }

  unfoldable pub reset_named : Text → HclogLogger → HclogLogger
  reset_named name h = record { args = h.args; name = name }

  -- hclogLogger.SetLevel
  unfoldable pub set_level : HclogLevel → State → State
  set_level level s = set_log_level (convert_level level) s

  -- StandardWriter, given `opts.InferLevels`
  unfoldable pub standard_writer : Bool → StdlogAdapter
  standard_writer infer_levels = record { infer_levels = infer_levels }

  -- Write of the writer that StandardWriter gives
  unfoldable pub standard_write : (trim_space : Text → Text) → Bool → Text → State → Option State
  standard_write trim_space infer_levels text s =
      write_line trim_space logger (standard_writer infer_levels) text s
