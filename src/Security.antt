-- ===== src/Security.antt =====
-- share/security/banlist.go: who is refused a login. Times and durations are nanoseconds; the clock
-- is the argument `now` of each call. The mutexes make each method one step.
pub mod BanList
pub mod MaxBadAttempts
