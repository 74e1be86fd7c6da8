-- ===== src/Config/Tests.antt =====
-- Environments.
use mahogany.Base.{
  ◌≡◌, refl, ◌↔◌, ◌≤◌, ◌*◌, none, some, pos, ◌==◌, string_eq, number_eq, if◌then◌else◌,
}
use mahogany.Config.{Environment, atoi, second, load_config}
use mahogany.Config.Numbers.{load_config_timeout}

-- Half a minute, and nothing else.
abbrev half_minute : Environment
half_minute name = if name == "TIMEOUT" then some "30" else none

load_config_timeout_example :
    ((load_config half_minute).timeout ≡ pos (30 * second)) ↔ (30 ≤ 9_223_372_036)
unfolding string_eq atoi number_eq
load_config_timeout_example = load_config_timeout half_minute "30" 30 refl refl
