-- ===== src/Persistence/Retention/Windows.antt =====
-- Every window is open for a day at least: ragcore/src/ragcore/persistence/retention.py.
use itsm_poc.Common.{
  ℕ, ◌+◌, ◌≤◌, Option, none, some, ltb, if◌then◌else◌, ◌≡◌, refl, arith, Bool-cases, inl, inr,
}
use itsm_poc.Domain.Work.{SessionState, is_terminal}
use itsm_poc.Domain.Records.{
  Instant, Json, json_none, json_bool, json_int, json_str, json_list, json_object, JsonObject,
}
use itsm_poc.Persistence.Retention.{
  RetentionClass, chat_content, audit, graph_checkpoint, work, days, platform_default,
  default_window, window_from, window_for, content_expiry_for, override_of, class_value,
}

default_long : (c : RetentionClass) → days 1 ≤ (default_window c).duration
unfolding default_window platform_default
default_long chat_content = omega arith
default_long audit = omega arith
default_long graph_checkpoint = omega arith
default_long work = omega arith

override_long :
    (c : RetentionClass) (raw : ℕ) → days 1 ≤ (window_from c (some (json_int raw))).duration
unfolding window_from
override_long c raw = elim (Bool-cases (ltb 0 raw)) [
  | inl e ↦ rw (e, if◌then◌else◌) (ground arith)
  | inr e ↦ rw (e, if◌then◌else◌) (default_long c)
]

from_long : (c : RetentionClass) (o : Option Json) → days 1 ≤ (window_from c o).duration
unfolding window_from
from_long c none = default_long c
from_long c (some json_none) = default_long c
from_long c (some (json_bool b)) = default_long c
from_long c (some (json_int raw)) = override_long c raw
from_long c (some (json_str s)) = default_long c
from_long c (some (json_list l)) = default_long c
from_long c (some (json_object o)) = default_long c

-- Whatever the overrides hold, a window is a day long at least.
pub window_for_long :
    (c : RetentionClass) (overrides : Option JsonObject)
    → days 1 ≤ (window_for c overrides).duration
unfolding window_for
window_for_long c none = default_long c
window_for_long c (some overrides) = from_long c (override_of (class_value c) overrides)

-- The content of a session in a terminal state expires a day or more after the session ended, and the
-- content of any other session does not expire.
pub content_expiry_lem :
    (state : SessionState) (ended : Instant) (overrides : Option JsonObject)
    → (kept : ℕ) × (days 1 ≤ kept)
      × (content_expiry_for state ended overrides
          ≡ (if is_terminal state then some (ended + kept) else none))
unfolding content_expiry_for
content_expiry_lem state ended overrides =
    ((window_for chat_content overrides).duration, window_for_long chat_content overrides, refl)
