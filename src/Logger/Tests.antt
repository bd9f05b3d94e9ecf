-- ===== src/Logger/Tests.antt =====
-- Runs of base/logger/logger.cc.
use moony.Prelude.{◌≡◌, refl, [], ◌∷◌}
use moony.Prelude.Int.{pos}
use moony.Prelude.Text.{codes, snprintf}
use moony.Logger.{LogLevel, log_all, log_fmt, accesses, access, set_log_level, log, level_prefix}

-- What follows a LOG_FMT_FATAL is not printed.
log_all_run :
    (log_all
      (record { level = LogLevel.error; now = codes "t"; msg = codes "a\n" }
        ∷ record { level = LogLevel.fatal; now = codes "u"; msg = codes "b\n" }
        ∷ record { level = LogLevel.info; now = codes "v"; msg = codes "c\n" }
        ∷ [])
      (record { logger = record { log_level = pos 0 }; printed = [] })).printed
    ≡ codes "[ERROR] t: a\n[FATAL] u: b\n"
unfolding log_all log_fmt accesses access set_log_level log level_prefix snprintf
log_all_run = refl
