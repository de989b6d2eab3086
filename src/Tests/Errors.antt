-- ===== src/Tests/Errors.antt =====
-- Result codes of the C library in the small world.
use mosquitto_rs.Base.{◌≡◌, refl, ◌≢◌, ◌⊎◌, ◌↔◌, All, str, ok, err}
use mosquitto_rs.Base.Int.{pos, show_int}
use mosquitto_rs.Error.{Error, from_err, build_map, result, unknown_mosq}
use mosquitto_rs.Error.Codes.{Reports, left_out, result-Reports, from_err-left_out_iff}
use mosquitto_rs.Error.Text.{error_display}
use mosquitto_rs.Error.Told.{from_err-error_display}
use mosquitto_rs.Sys.{MosqErr, err_code}
use mosquitto_rs.Tests.World.{library, broker}

result-Reports_example :
    ((pos 14 ≡ pos 0) × (result library (pos 14) (str "done") (broker (pos 0)) ≡ ok (str "done")))
    ⊎ ((pos 14 ≢ pos 0)
        × ((e : Error) × (result library (pos 14) (str "done") (broker (pos 0)) ≡ err e)
            × Reports library (broker (pos 0)) (pos 14) e))
result-Reports_example = result-Reports library (broker (pos 0)) (pos 14) (str "done")

from_err-left_out_iff_example :
    (from_err library (err_code MosqErr.timeout) (broker (pos 0))
      ≡ unknown_mosq (err_code MosqErr.timeout))
    ↔ (¬ All (λ d. MosqErr.timeout ≢ d) left_out)
from_err-left_out_iff_example = from_err-left_out_iff library (broker (pos 0)) MosqErr.timeout

-- An error of the operating system, in two states of the library.
from_err-error_display_example : pos 14 ≡ pos 14
unfolding from_err error_display
from_err-error_display_example =
    from_err-error_display library (λ e. str "os") (broker (pos 0)) (broker (pos 1)) (pos 14)
      (pos 14) refl

error_display_tests :
    (error_display (λ e. str "os") (from_err library (pos 5) (broker (pos 0)))
      ≡ str "mosq error: MOSQ_ERR_CONN_REFUSED")
    × (error_display (λ e. str "os") (from_err library (pos 27) (broker (pos 0)))
        ≡ str "mosq error code 27")
unfolding from_err build_map err_code error_display show_int
error_display_tests = (refl, refl)
