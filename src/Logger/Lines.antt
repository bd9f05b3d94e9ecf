-- ===== src/Logger/Lines.antt =====
-- The lines that base/logger/logger.cc prints.
use moony.Prelude.{
  ◌≡◌, refl, sym, ap, ◌∙◌, if◌then◌else◌, List, [], ◌∷◌, ◌++◌, append_assoc, append-nil, Bool-cases,
  inl, inr,
}
use moony.Prelude.Text.{Text, codes, snprintf}
use moony.Logger.{
  LogLevel, Output, Entry, log, log_fmt, log_all, exits, set_log_level, to_int, log_buf_len,
  level_prefix, sets, logs, access, accesses,
}

-- The word of a level.
abbrev pub word : LogLevel → Text
word LogLevel.info = codes "INFO"
word LogLevel.error = codes "ERROR"
word LogLevel.fatal = codes "FATAL"
word LogLevel.debug = codes "DEBUG"

-- The line of an entry: its level in brackets, the time, and what its buffer holds of the message.
abbrev pub line : LogLevel → Text → Text → Text
line level now msg =
    (b'[' ∷ (word level ++ codes "] ")) ++ (now ++ (codes ": " ++ snprintf log_buf_len msg))

log-line :
    (level : LogLevel) (now msg : Text)
    → log now (snprintf log_buf_len msg) (record { log_level = to_int level }) ≡ line level now msg
unfolding log level_prefix
log-line LogLevel.info now msg = refl
log-line LogLevel.error now msg = refl
log-line LogLevel.fatal now msg = refl
log-line LogLevel.debug now msg = refl

-- The lines of a thread, up to its first LOG_FMT_FATAL, included.
pub lines : List Entry → Text
lines [] = []
lines (e ∷ es) =
    let rest = lines es in line e.level e.now e.msg ++ (if exits e.level then [] else rest)

log_fmt-line :
    (level : LogLevel) (now msg : Text) (o : Output)
    → (log_fmt level now msg o).printed ≡ o.printed ++ line level now msg
unfolding log_fmt accesses access set_log_level
log_fmt-line level now msg o = ap (λ t. o.printed ++ t) (log-line level now msg)

-- Where one thread logs, each entry prints one line, in order, under its own level, up to the first
-- LOG_FMT_FATAL.
pub log_all_lem : (es : List Entry) (o : Output) → (log_all es o).printed ≡ o.printed ++ lines es
unfolding log_all lines
log_all_lem [] o = sym (append-nil o.printed)
log_all_lem (e ∷ es) o = elim (Bool-cases (exits e.level)) [
  | inl last ↦ rw last (
      log_fmt-line e.level e.now e.msg o
      ∙ ap (λ t. o.printed ++ t) (sym (append-nil (line e.level e.now e.msg))))
  | inr more ↦ rw more (
      log_all_lem es (log_fmt e.level e.now e.msg o)
      ∙ ap (λ t. t ++ lines es) (log_fmt-line e.level e.now e.msg o)
      ∙ append_assoc o.printed (line e.level e.now e.msg) (lines es))
]

-- Where two threads log, one with `a` and one with `b`, both lines can be printed under the level `b`.
pub levels_mix :
    (a b : LogLevel) (now now' msg msg' : Text) (o : Output)
    → (accesses (sets a ∷ sets b ∷ logs now msg ∷ logs now' msg' ∷ []) o).printed
      ≡ o.printed ++ (line b now msg ++ line b now' msg')
unfolding accesses access set_log_level
levels_mix a b now now' msg msg' o =
    rw (log-line b now msg, log-line b now' msg')
      (append_assoc o.printed (line b now msg) (line b now' msg'))
