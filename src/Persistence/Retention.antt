-- ===== src/Persistence/Retention.antt =====
-- How long rows are kept: ragcore/src/ragcore/persistence/retention.py. An instant is a count of microseconds.
pub mod Windows
use itsm_poc.Common.{
  ℕ, ◌+◌, ◌*◌, Bool, true, false, List, Option, none, some, String, str_eq, ltb, if◌then◌else◌,
}
use itsm_poc.Domain.Work.{SessionState, is_terminal}
use itsm_poc.Domain.Records.{Instant, Json, json_int, JsonObject, no_members, member}

pub data RetentionClass : Type 0 where
  chat_content audit graph_checkpoint work : RetentionClass

unfoldable pub class_value : RetentionClass → String
class_value chat_content = "chat_content"
class_value audit = "audit"
class_value graph_checkpoint = "graph_checkpoint"
class_value work = "work"

-- `timedelta(days=…)`.
abbrev pub days : ℕ → ℕ
days n = n * 86400000000

unfoldable pub platform_default : RetentionClass → ℕ
platform_default chat_content = days 90
platform_default audit = days 2555
platform_default graph_checkpoint = days 30
platform_default work = days 2555

pub record RetentionWindow : Type 0 where
  pub retention_class : RetentionClass
  pub duration : ℕ
  pub is_override : Bool

-- `overrides.get`; the keys of a dictionary are distinct.
unfoldable pub override_of : String → JsonObject → Option Json
override_of name no_members = none
override_of name (member key value rest) =
    if str_eq key name then some value else override_of name rest

unfoldable pub default_window : RetentionClass → RetentionWindow
unfolding platform_default
default_window c = record {
  retention_class = c;
  duration = platform_default c;
  is_override = false;
}

unfoldable pub window_from : RetentionClass → Option Json → RetentionWindow
unfolding default_window
window_from c (some (json_int raw)) =
    if ltb 0 raw
    then record { retention_class = c; duration = days raw; is_override = true }
    else default_window c
window_from c _ = default_window c

unfoldable pub window_for : RetentionClass → Option JsonObject → RetentionWindow
unfolding window_from override_of class_value
window_for c none = default_window c
window_for c (some overrides) = window_from c (override_of (class_value c) overrides)

unfoldable pub content_expiry_for : SessionState → Instant → Option JsonObject → Option Instant
unfolding window_for
content_expiry_for state terminal_at overrides =
    if is_terminal state
    then some (terminal_at + (window_for chat_content overrides).duration)
    else none

unfoldable pub audit_retain_until : Instant → Option JsonObject → Instant
unfolding window_for
audit_retain_until occurred_at overrides = occurred_at + (window_for audit overrides).duration

unfoldable pub checkpoint_prune_after : Instant → Option JsonObject → Instant
unfolding window_for
checkpoint_prune_after completed_at overrides =
    completed_at + (window_for graph_checkpoint overrides).duration
