-- ===== src/Logger/Adapted.antt =====
-- `LogrusAdapter` (logrus.go): logrus as a logger of the program. The library is a parameter.
use hraftd.Common.{◌≡◌, ap, ◌∙◌, true, Option, none, some, List, leb}
use hraftd.Common.Text.{Text, lit, ◌==◌}
use hraftd.Logger.{
  LogLevel, level_debug, level_info, level_warn, level_error, parse_log_level, level_name, Logger,
}
use hraftd.Logger.Hclog.{HclogLevel, is_info, set_level, convert_level}

-- logrus.ParseLevel, InfoLevel, Level.String, and the methods SetLevel, the field Level and Logf of a
-- logrus.Logger
pub record Logrus (Data : Type 0) : Type 1 where
  pub Level : Type 0
  pub State : Type 0
  pub parse_level : Text → Option Level
  pub info_level : Level
  pub level_text : Level → Text
  pub set_level : Level → State → State
  pub level : State → Level
  pub logf : Level → Text → List Data → State → State

module _ {Data : Type 0} where
  -- The texts that logrus prints for the levels that it parses: a warning is printed in another way
  -- than the program writes it.
  pub record IsLogrus (l : Logrus Data) : Type 0 where
    pub debug :
        (v : l.Level) × (l.parse_level (lit "debug") ≡ some v) × (l.level_text v ≡ lit "debug")
    pub info : (v : l.Level) × (l.parse_level (lit "info") ≡ some v) × (l.level_text v ≡ lit "info")
    pub warn :
        (v : l.Level) × (l.parse_level (lit "warn") ≡ some v) × (l.level_text v ≡ lit "warning")
    pub error :
        (v : l.Level) × (l.parse_level (lit "error") ≡ some v) × (l.level_text v ≡ lit "error")
    pub level-set_level : (v : l.Level) (s : l.State) → l.level (l.set_level v s) ≡ v

  module _ (l : Logrus Data) where
    abbrev or_info : Option l.Level → l.Level
    or_info none = l.info_level
    or_info (some v) = v

    -- the level of logrus for one of the program
    abbrev logrus_level : LogLevel → l.Level
    logrus_level level = or_info (l.parse_level (level_name level))

    -- LogrusAdapter.SetLogLevel, GetLogLevel and Logf
    unfoldable pub adapter_set_level : LogLevel → l.State → l.State
    adapter_set_level level s = l.set_level (logrus_level level) s

    unfoldable pub adapter_level : l.State → LogLevel
    adapter_level s = parse_log_level (l.level_text (l.level s))

    unfoldable pub adapter_logf : LogLevel → Text → List Data → l.State → l.State
    adapter_logf level format args s = l.logf (logrus_level level) format args s

    -- NewLogrusAdapter, as a Logger
    abbrev pub logrus_adapter : Logger Data
    logrus_adapter = record {
      State = l.State;
      set_log_level = adapter_set_level;
      get_log_level = adapter_level;
      logf = adapter_logf;
    }

  module _ (l : Logrus Data) (laws : IsLogrus l) (s : l.State) where
    read_back :
        (level : LogLevel) (v : l.Level) (text : Text)
        → l.parse_level (level_name level) ≡ some v
        → l.level_text v ≡ text
        → adapter_level l (adapter_set_level l level s) ≡ parse_log_level text
    unfolding adapter_level adapter_set_level
    read_back level v text parses prints =
        ap (λ o. parse_log_level (l.level_text (l.level (l.set_level (or_info l o) s)))) parses
        ∙ ap (λ x. parse_log_level (l.level_text x)) (laws.level-set_level v s)
        ∙ ap parse_log_level prints

    -- A level of the program that is set on logrus is read back, but for the level of warnings: that is
    -- read back as the one of information, for which the raft library's logger then takes itself.
    pub adapter_level-set :
        (adapter_level l (adapter_set_level l level_debug s) ≡ level_debug)
        × (adapter_level l (adapter_set_level l level_info s) ≡ level_info)
        × (adapter_level l (adapter_set_level l level_error s) ≡ level_error)
        × (adapter_level l (adapter_set_level l level_warn s) ≡ level_info)
        × (is_info (logrus_adapter l) (set_level (logrus_adapter l) HclogLevel.warn s) ≡ true)
    unfolding level_name parse_log_level ◌==◌ is_info set_level convert_level
    adapter_level-set =
        let (d, d_parses, d_prints) = laws.debug in
        let (i, i_parses, i_prints) = laws.info in
        let (w, w_parses, w_prints) = laws.warn in
        let (e, e_parses, e_prints) = laws.error in
        let warned = read_back level_warn w (lit "warning") w_parses w_prints in
        (
          read_back level_debug d (lit "debug") d_parses d_prints,
          read_back level_info i (lit "info") i_parses i_prints,
          read_back level_error e (lit "error") e_parses e_prints,
          warned,
          ap (λ x. leb x level_info) warned,
        )
