-- ===== src/Log.antt =====
-- sylar/sylar/log.h and log.cpp: log levels, the patterns of LogFormatter, loggers and their
-- appenders, and the loggers that the configuration defines.
pub mod Level
pub mod Pattern
pub mod Logger
pub mod FileAppender
pub mod Defines
pub mod Casts
