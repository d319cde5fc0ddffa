-- ===== src/Tests/Logging.antt =====
-- The logger at concrete inputs.
use foxglove_bridge_release.Base.{◌≡◌, refl, [], ◌∷◌}
use foxglove_bridge_release.Logging.{
  Levels, CallbackLogger, dynamic_test, level_of, callback_logger, set_channels, write,
  all_channels, clear_channels, warn,
}

-- The numbers of websocketpp's elevel.
abbrev sample_levels : Levels
sample_levels = record {
  access = 1;
  devel = 1;
  library = 2;
  info_level = 4;
  warn_level = 8;
  rerror = 16;
  fatal = 32;
}

abbrev logger : CallbackLogger
logger = set_channels 12 (callback_logger all_channels 2)

write_warn : (write sample_levels 8 "lost" logger).called ≡ (warn, "lost") ∷ []
unfolding write dynamic_test set_channels callback_logger level_of
write_warn = refl

write_error : (write sample_levels 16 "lost" logger).called ≡ []
unfolding write dynamic_test set_channels callback_logger
write_error = refl

write_cleared : (write sample_levels 8 "lost" (set_channels 0 logger)).called ≡ []
unfolding write dynamic_test set_channels clear_channels callback_logger
write_cleared = refl
