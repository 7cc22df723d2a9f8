-- ===== src/Logger/Standard.antt =====
-- The logger that prints to the console (logger.go): `StdLogger`, `NewStdLogger`, `Output`, `Print` and
-- `NewSLogger`. A call of `Print` that panics leaves nothing to print with: the writer's state is `none`
-- from then on.
use hraftd.Common.{ℕ, Bool, Option, none, some, List, []}
use hraftd.Common.Text.{Text}
use hraftd.Common.Result.{◌>>=?◌}
use hraftd.Logger.{level_info, Writer, SLogger}
use hraftd.Logger.Lines.{CivilTime, output}

-- What Output reads of its surroundings, the time and the caller so many frames up, and where it
-- writes to.
pub record Console : Type 1 where
  pub State : Type 0
  pub now : State → CivilTime
  pub caller : ℕ → State → Option (Text × ℕ)
  pub write : Text → State → Option Text × State

-- StdLogger, without its lock and its destination
pub record StdLogger : Type 0 where
  pub buf : Text
  pub call_depth : ℕ
  pub print_caller_info : Bool

-- NewStdLogger, on what viper has for PrintCallerInfo
abbrev pub new_std_logger : Bool → StdLogger
new_std_logger print_caller_info = record {
  buf = [];
  call_depth = 4;
  print_caller_info = print_caller_info;
}

module _ (base : Text → Text) (console : Console) where
  -- StdLogger.Output: the line is put together in the emptied buffer and written
  unfoldable pub std_output :
      Text → StdLogger × console.State → Option (Option Text × (StdLogger × console.State))
  std_output s (l, c) =
      output base l.print_caller_info (console.caller l.call_depth c) (console.now c) s >>=? λ line.
      let (e, c') = console.write line c in some (e, (record l { buf = line }, c'))

  -- StdLogger.Print: an error of the destination is dropped
  unfoldable pub std_print :
      Text → Option (StdLogger × console.State) → Option (StdLogger × console.State)
  std_print s none = none
  std_print s (some st) = std_output s st >>=? λ r. some r.1

  -- StdLogger as a Writer
  abbrev pub std_writer : Writer
  std_writer = record { State = Option (StdLogger × console.State); print = std_print }

  module _ {Data : Type 0} (sprintf : Text → List Data → Text) where
    -- NewSLogger, and so DefaultLogger
    abbrev pub new_slogger : Bool → console.State → SLogger sprintf std_writer
    new_slogger print_caller_info c = record {
      level = level_info;
      writer = some (new_std_logger print_caller_info, c);
    }
