-- ===== src/Hub/Settings.antt =====
-- components/vitohome/__init__.py: the hub's own settings: intervals, raw access, clock.
pub mod Deadlines
use esphome_vitohome.Common.{ℕ, Bool, true, false, not, ◌&&◌, ◌||◌, leb, ◌==◌, if◌then◌else◌}
use esphome_vitohome.Hub.Invalid.{
  Result, ok, invalid, ◌>>=◌, ◌>>◌, interval_too_long, raw_writes_restricted, no_raw_lane,
  no_time_source,
}
use esphome_vitohome.Hub.Fields.{guard}

abbrev pub poll_interval_max_ms : ℕ
poll_interval_max_ms = 0x7FFFFFFF

abbrev pub poll_never_ms : ℕ
poll_never_ms = 0xFFFFFFFF

-- `_check_interval`, of the interval's milliseconds; `allow_never` is that of `update_interval`.
unfoldable pub check_interval : Bool → ℕ → Result ℕ
check_interval allow_never ms =
    if allow_never && (ms == poll_never_ms)
    then ok ms
    else if leb ms poll_interval_max_ms
    then ok ms
    else invalid (interval_too_long ms)

-- The keys of the hub that `_validate_raw_access` and `_validate_time_sync` read.
pub record Settings : Type 0 where
  pub unrestricted : Bool
  pub unsafe_raw_writes : Bool
  pub raw_queue_size : ℕ
  pub time_sync : Bool
  pub time_id : Bool

-- `_validate_raw_access`
unfoldable pub validate_raw_access : Settings → Result Settings
validate_raw_access c = do
  guard (not (c.unsafe_raw_writes && not c.unrestricted)) (invalid raw_writes_restricted)
  guard (not (c.unrestricted && (c.raw_queue_size == 0))) (invalid no_raw_lane)
  ok c

-- `_validate_time_sync`
unfoldable pub validate_time_sync : Settings → Result Settings
validate_time_sync c = do guard (not (c.time_sync && not c.time_id)) (invalid no_time_source); ok c
