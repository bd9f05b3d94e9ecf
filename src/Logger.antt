-- ===== src/Logger.antt =====
-- base/logger/logger.h and logger.cc: the one logger object and the macros that print through it. The
-- text of the time stamp is an argument. Where several threads log, each access to the logger object
-- is a step of its own: the macros take no lock.
pub mod Lines
mod Tests
use moony.Prelude.{ℕ, Bool, true, false, ◌==◌, if◌then◌else◌, List, [], ◌∷◌, ◌++◌}
use moony.Prelude.Int.{ℤ, pos, negsuc}
use moony.Prelude.Text.{Text, codes, snprintf}

-- `enum log_level`
pub data LogLevel : Type 0 where
  info error fatal debug : LogLevel

pub record Logger : Type 0 where
  pub log_level : ℤ

-- LOG_BUF_LEN
abbrev pub log_buf_len : ℕ
log_buf_len = 1024

-- An enumerator as an `int`.
abbrev pub to_int : LogLevel → ℤ
to_int info = pos 0
to_int error = pos 1
to_int fatal = pos 2
to_int debug = pos 3

unfoldable pub set_log_level : ℤ → Logger → Logger
set_log_level n l = record l { log_level = n }

-- What the `switch` of `log` prints.
unfoldable pub level_prefix : ℤ → Text
level_prefix (pos n) =
    if n == 0
    then codes "[INFO] "
    else if n == 1
    then codes "[ERROR] "
    else if n == 2
    then codes "[FATAL] "
    else if n == 3
    then codes "[DEBUG] "
    else []
level_prefix (negsuc n) = []

-- What `log` prints, where the time stamp of now has the text `now`.
unfoldable pub log : Text → Text → Logger → Text
log now msg l = level_prefix l.log_level ++ (now ++ (codes ": " ++ msg))

-- The logger and the standard output.
pub record Output : Type 0 where
  pub logger : Logger
  pub printed : Text

-- An access of a macro to the logger object.
pub data Access : Type 0 where
  sets : LogLevel → Access
  logs : Text → Text → Access

unfoldable pub access : Access → Output → Output
access (sets level) o = record o { logger = set_log_level (to_int level) o.logger }
access (logs now msg) o = record o {
  printed = o.printed ++ log now (snprintf log_buf_len msg) o.logger;
}

unfoldable pub accesses : List Access → Output → Output
accesses [] o = o
accesses (a ∷ rest) o = accesses rest (access a o)

-- LOG_FMT_INFO, LOG_FMT_ERROR and LOG_FMT_DEBUG, and LOG_FMT_FATAL before its `exit`, of a message
-- that is already formatted.
unfoldable pub log_fmt : LogLevel → Text → Text → Output → Output
log_fmt level now msg o = accesses (sets level ∷ logs now msg ∷ []) o

-- Does the macro of this level call `exit(-1)`?
abbrev pub exits : LogLevel → Bool
exits fatal = true
exits _ = false

-- The use of a macro.
pub record Entry : Type 0 where
  pub level : LogLevel
  pub now : Text
  pub msg : Text

-- A thread that uses the macros, up to the `exit` of the first LOG_FMT_FATAL.
unfoldable pub log_all : List Entry → Output → Output
log_all [] o = o
log_all (e ∷ es) o =
    let rest = log_all es (log_fmt e.level e.now e.msg o) in
    if exits e.level then log_fmt e.level e.now e.msg o else rest
