-- ===== src/Startup/Flog.antt =====
-- flog and logerror of src/utils.h: what stands on stderr.
use graphserv.Prelude.{
  ◌≡◌, sym, ap, ◌∙◌, if◌then◌else◌, Text, text, List, [], ◌∷◌, ◌++◌, append_assoc, append-nil, some,
}
use graphserv.External.{Env}
use graphserv.Startup.{
  LogLevel, log_info, log_error, log_auth, log_crit, LogMask, quiet_mask, logs, log_flags,
}
use graphserv.Startup.Logging.{log_flags-quiet}

-- What localtime and strftime give.
pub data LocalTime : Type 0 where
  no_local_time : LocalTime
  no_format : LocalTime
  formatted : Text → LocalTime

-- A call of flog, with its format and arguments rendered.
pub record Message : Type 0 where
  pub level : LogLevel
  pub time : LocalTime
  pub message : Text

module _ (env : Env) where
  time_text : LocalTime → Text
  time_text no_local_time = env.gettext (text "localtime failed")
  time_text no_format = env.gettext (text "strftime returned 0")
  time_text (formatted t) = t

  -- what a message is on stderr
  unfoldable pub flog_line : Message → Text
  unfolding time_text
  flog_line m = env.format (text "[%s] ") (time_text m.time ∷ []) ++ m.message

  unfoldable pub flog : LogMask → Message → Text → Text
  unfolding flog_line
  flog mask m stderr = if logs m.level mask then stderr ++ flog_line m else stderr

  -- logerror(str)
  unfoldable pub logerror : LogMask → LocalTime → Text → Text → Text
  unfolding flog
  logerror mask time str stderr =
      flog mask
        (record {
          level = log_error;
          time = time;
          message = env.format (text "%s: %s\n") (str ∷ env.error_text ∷ []);
        })
        stderr

  unfoldable pub flog_all : LogMask → List Message → Text → Text
  unfolding flog
  flog_all mask [] stderr = stderr
  flog_all mask (m ∷ rest) stderr = flog_all mask rest (flog mask m stderr)

  -- the critical messages, as they are printed
  unfoldable pub criticals : List Message → Text
  unfolding flog_line
  criticals [] = []
  criticals (m ∷ rest) = elim m.level [
    | log_crit ↦ flog_line m ++ criticals rest
    | log_info ↦ criticals rest
    | log_error ↦ criticals rest
    | log_auth ↦ criticals rest
  ]

  quiet-criticals :
      (ms : List Message) (stderr : Text) → flog_all quiet_mask ms stderr ≡ stderr ++ criticals ms
  unfolding flog_all flog criticals logs
  quiet-criticals [] stderr = sym (append-nil stderr)
  quiet-criticals (m ∷ rest) stderr = by_level m.level (λ err. quiet-criticals rest err)
    where
      line : Text
      line = flog_line m

      by_level :
          (l : LogLevel)
          → ((err : Text) → flog_all quiet_mask rest err ≡ err ++ criticals rest)
          → flog_all quiet_mask rest (if logs l quiet_mask then stderr ++ line else stderr)
            ≡ stderr ++ elim l [
              | log_crit ↦ line ++ criticals rest
              | log_info ↦ criticals rest
              | log_error ↦ criticals rest
              | log_auth ↦ criticals rest
            ]
      by_level log_info ih = ih stderr
      by_level log_error ih = ih stderr
      by_level log_auth ih = ih stderr
      by_level log_crit ih = ih (stderr ++ line) ∙ append_assoc stderr line (criticals rest)

  -- With q as the last flag of -l, what is printed of any messages on stderr is the critical ones, in
  -- their order, and no others.
  pub flog_all-quiet :
      (flags : Text) (mask m : LogMask) (messages : List Message) (stderr : Text)
      → log_flags (flags ++ b'q' ∷ []) mask ≡ some m
      → flog_all m messages stderr ≡ stderr ++ criticals messages
  flog_all-quiet flags mask m messages stderr e =
      ap (λ k. flog_all k messages stderr) (log_flags-quiet flags mask m e)
      ∙ quiet-criticals messages stderr
