-- ===== src/Logging/Filter.antt =====
-- The threshold of the logger and the mask of syslog agree.
use fion.Prelude.{ℕ, not, [], ◌∷◌, ◌≡◌, refl, ap, ◌∙◌, arith, ltb, if◌then◌else◌}
use fion.Text.{Bytes}
use fion.Logging.{
  LogLevel, rank, to_priority, to_mask, Logger, init, shutdown, set_level, log, passes,
}

-- The mask is that of the level.
abbrev pub IsConsistent : Logger → Type 0
IsConsistent s = s.syslog_mask ≡ to_mask s.current_level

every_level :
    (P : LogLevel → Type 0)
    → P LogLevel.emergency
    → P LogLevel.alert
    → P LogLevel.critical
    → P LogLevel.error
    → P LogLevel.warning
    → P LogLevel.notice
    → P LogLevel.info
    → P LogLevel.debug
    → (l : LogLevel) → P l
every_level P a b c d e f g h LogLevel.emergency = a
every_level P a b c d e f g h LogLevel.alert = b
every_level P a b c d e f g h LogLevel.critical = c
every_level P a b c d e f g h LogLevel.error = d
every_level P a b c d e f g h LogLevel.warning = e
every_level P a b c d e f g h LogLevel.notice = f
every_level P a b c d e f g h LogLevel.info = g
every_level P a b c d e f g h LogLevel.debug = h

-- The mask of a level lets the priorities up to it through.
Exact : LogLevel → LogLevel → Type 0
Exact t l = passes (to_mask t) (to_priority l) ≡ not (ltb (rank t) (rank l))

exact : (t l : LogLevel) → Exact t l
unfolding Exact passes to_mask to_priority rank
exact LogLevel.emergency =
    every_level (Exact LogLevel.emergency) refl refl refl refl refl refl refl refl
exact t = every_level (Exact t) refl refl refl refl refl refl refl refl

mask_agrees :
    (s : Logger) (l : LogLevel)
    → IsConsistent s
    → passes s.syslog_mask (to_priority l) ≡ not (ltb (rank s.current_level) (rank l))
unfolding Exact
mask_agrees s l c = ap (λ (k : ℕ). passes k (to_priority l)) c ∙ exact s.current_level l

init-IsConsistent : (s : Logger) → IsConsistent s → IsConsistent (init s)
unfolding init
init-IsConsistent s c = ground arith

shutdown-IsConsistent : (s : Logger) → IsConsistent s → IsConsistent (shutdown s)
unfolding shutdown
shutdown-IsConsistent s c = ground arith

-- When the mask of syslog is that of the level: `init`, `shutdown` and `set_level` keep it so, and for
-- a message of any level, `log` passes it to syslog exactly if the mask lets its priority through.
pub log_filter :
    (s : Logger) (level : LogLevel) (message : Bytes)
    → IsConsistent s
    → IsConsistent (init s)
      × IsConsistent (shutdown s)
      × IsConsistent (set_level s level)
      × (log s level message ≡ (
          if passes s.syslog_mask (to_priority level)
          then (to_priority level, message) ∷ []
          else []))
unfolding set_level log
log_filter s level message c =
    (init-IsConsistent s c, shutdown-IsConsistent s c, refl, ground (arith, mask_agrees s level c))
