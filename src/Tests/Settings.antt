-- ===== src/Tests/Settings.antt =====
-- Options of a client of the small world, and the text of a version.
use mosquitto_rs.Base.{◌≡◌, ◌↔◌, ◌⊎◌, [], ◌∷◌}
use mosquitto_rs.Base.Int.{pos}
use mosquitto_rs.Client.Data.{ClientOption, tls_alpn}
use mosquitto_rs.Client.Settings.{SetsInt, SetsText, Refuses, set_option_cases}
use mosquitto_rs.Client.State.{State, new}
use mosquitto_rs.Lowlevel.Mosq.{LibraryVersion, version_display}
use mosquitto_rs.Lowlevel.Version.{dotted, version_display_iff}
use mosquitto_rs.Tests.World.{platform, runtime, mosq as client}

abbrev start : State platform
start = new platform (runtime (pos 0))

-- A text with a NUL at its second place.
abbrev broken : ClientOption
broken = tls_alpn (b'h' ∷ 0 ∷ b'2' ∷ [])

set_option_cases_example :
    SetsInt platform client broken start
    ⊎ SetsText platform client broken start
    ⊎ Refuses platform client broken start
set_option_cases_example = set_option_cases platform client start broken

abbrev linked : LibraryVersion
linked = record { major = pos 2; minor = pos 0; revision = pos 18; version = pos 2000018 }

version_display_iff_example :
    (version_display linked ≡ dotted (pos 2) (pos 0) (pos 18)) ↔ ◌≡◌ (pos 2) (pos 0)
version_display_iff_example = version_display_iff linked
