-- ===== src/Control/Manager/Sessions.antt =====
-- Which session a device's commands go to, across reconnects.
use espmic.Common.{ℕ, ◌≡◌, ◌≢◌, true, false, some, String, String_discrete, arith}
use espmic.Common.GoMap
use espmic.Control.Manager.{SessionManager, session_of, on_ready, unregister_if, is_connected}

session_of-on_ready :
    (m : SessionManager) (s : ℕ) (device : String)
    → device ≢ ""
    → session_of (on_ready m s device) device ≡ some s
unfolding on_ready
session_of-on_ready m s device h =
    ground (arith, GoMap.lookup-insert String_discrete device device s m.sessions)

-- A device that reconnects with a new session keeps it when the old one is torn down: the teardown
-- changes nothing and says so, and the device stays connected; and the teardown of the new session
-- disconnects it.
pub unregister_if-on_ready :
    (m : SessionManager) (old new : ℕ) (device : String)
    → device ≢ ""
    → old ≢ new
    → (unregister_if (on_ready m new device) device old ≡ (on_ready m new device, false))
      × (is_connected (on_ready m new device) device ≡ true)
      × ((unregister_if (on_ready m new device) device new).1 ≡ true)
      × (is_connected (unregister_if (on_ready m new device) device new).0 device ≡ false)
unfolding unregister_if is_connected
unregister_if-on_ready m old new device h ne = ground (
  arith,
  session_of-on_ready m new device h,
  GoMap.lookup-delete String_discrete device device (on_ready m new device).sessions,
)
