-- ===== src/Log.antt =====
-- src/log.cpp and include/log.h: levels, events, formatters, and the loggers that send events to
-- appenders. `Level` and `Formatter` hold the values, `Logger` the objects that are shared.
pub mod Level
pub mod Formatter
pub mod Logger
pub mod Config
