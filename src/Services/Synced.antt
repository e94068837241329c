-- ===== src/Services/Synced.antt =====
-- The tables and the services of the parts of OpenStack, in the order in which they are set up.
use microstack.Base.{String, ◌<>◌, List, [], ◌∷◌}
use microstack.Machine.{Event, command, connected, Host}
use microstack.Machine.Performs.{Performs}
use microstack.Services.Prepared.{launched, enabled}

abbrev restarted : String → Event
restarted service = command ("snapctl" ∷ "restart" ∷ ("microstack." <> service) ∷ [])

-- The steps of each part, newest first.
abbrev pub neutron_synced : String → List Event
neutron_synced ip =
    connected ip "9696"
    ∷ enabled "neutron-ovn-metadata-agent"
    ∷ enabled "neutron-api"
    ∷ launched "neutron-db-manage" ("upgrade" ∷ "head" ∷ [])
    ∷ []

abbrev pub nova_synced : String → List Event
nova_synced ip =
    connected ip "8774"
    ∷ enabled "nova-scheduler"
    ∷ enabled "nova-conductor"
    ∷ enabled "nova-api-metadata"
    ∷ restarted "nova-compute"
    ∷ enabled "nova-api"
    ∷ launched "nova-manage" ("db" ∷ "sync" ∷ [])
    ∷ launched "nova-manage" ("api_db" ∷ "sync" ∷ [])
    ∷ []

abbrev pub glance_synced : String → List Event
glance_synced ip =
    connected ip "9292"
    ∷ enabled "registry"
    ∷ enabled "glance-api"
    ∷ launched "glance-manage" ("db_sync" ∷ [])
    ∷ []

module _ (h : Host) where
  abbrev nova_waited : String → List Event
  nova_waited ip = connected ip "8774" ∷ []
