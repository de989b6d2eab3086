-- ===== src/Router/Topic.antt =====
-- mosquitto-rs/src/router.rs: `route_to_topic`.
use mosquitto_rs.Base.{◌==◌, Bool, true, false, [], ◌∷◌, ◌++◌, Str, if◌then◌else◌}

-- The loop: `result` and `in_param` are its variables.
unfoldable pub convert : Str → Bool → Str → Str
convert result in_param [] = result
convert result in_param (c ∷ cs) =
    let param = convert (result ++ b'+' ∷ []) true cs in
    let in_param' = if c == b'/' then false else in_param in
    let skipped = convert result in_param' cs in
    let kept = convert (result ++ c ∷ []) in_param' cs in
    if c == b':' then param else if in_param' then skipped else kept

unfoldable pub route_to_topic : Str → Str
unfolding convert
route_to_topic route = convert [] false route
