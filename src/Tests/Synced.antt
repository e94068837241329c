-- ===== src/Tests/Synced.antt =====
-- The parts of OpenStack on a host where all that is asked for is shown.
use microstack.Machine.{World}
use microstack.Question.{flag}
use microstack.Base.{true}
use microstack.Services.Compute.{nova_yes}
use microstack.Services.Networks.{neutron_yes}
use microstack.Services.Storage.{glance_yes}
use microstack.Tests.Services.{ready, addressed}

abbrev nova_left : World
nova_left = (nova_yes ready (flag true) addressed).1

abbrev neutron_left : World
neutron_left = (neutron_yes ready (flag true) addressed).1

abbrev glance_left : World
glance_left = (glance_yes ready (flag true) addressed).1
