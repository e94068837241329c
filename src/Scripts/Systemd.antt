-- ===== src/Scripts/Systemd.antt =====
-- checks/check_systemd.py: the exit status of the check of a service.
use microstack.Base.{ℕ, String, ◌<>◌, ◌==◌, if◌then◌else◌}
use microstack.Machine.Monad.{Outcome, ok, raised}

-- What D-Bus answers: `bus` is the connection to the manager of systemd, and `sub_state` the
-- property SubState of a unit. Where it is `raised`, the call raises DBusException.
pub record Bus : Type 0 where
  pub bus : Outcome (Unit {0})
  pub sub_state : String → Outcome String

unfoldable pub unit_status : Outcome String → ℕ
unit_status (ok service_res) = if service_res == "running" then 0 else 2
unit_status (raised e) = 2

unfoldable pub connected_status : Outcome (Unit {0}) → Outcome String → ℕ
unfolding unit_status
connected_status (ok t) state = unit_status state
connected_status (raised e) state = 2

-- The exit status for a service.
unfoldable pub check_systemd : Bus → String → ℕ
unfolding connected_status
check_systemd b service_arg = connected_status b.bus (b.sub_state (service_arg <> ".service"))
