-- ===== src/Progression/Tests.antt =====
-- Concrete levels and limits.
use apm.Shared.{◌≡◌, refl}
use apm.Progression.Level.{after_sessions, after_sessions-estimate}

after_sessions-estimate_example : after_sessions 6 "C2" "beginner" ≡ "C2"
after_sessions-estimate_example = after_sessions-estimate "beginner" "C2" 5 refl
