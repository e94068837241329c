-- ===== src/Tests/Launches.antt =====
-- Launches of servers on concrete hosts.
use microstack.Base.{
  String, ◌==◌, ◌+◌, ◌≤◌, ◌≡◌, ◌≢◌, refl, true, some, none, [], ◌∷◌, if◌then◌else◌, strip, has_part,
  lower, arith, subst, sym,
}
use microstack.Json.{Json, str, obj, arr, field, end, nil, cons, get}
use microstack.Machine.{Host, World, still_waiting}
use microstack.Machine.Monad.{ok, raised, and_then, ◌>>=◌}
use microstack.Shell.{check, check_output}
use microstack.Launch.Server.{
  Args, Poll, check_server, observe, replace, listed_status, scan, entry_status, status_of, id_of,
  create_server, delete_server, judge, judge_error, follow, poll_loop,
}
use microstack.Launch.Polling.{Settles, check_server_ends, known}
use microstack.Launch.Final.{final, check_server-final}
use microstack.Launch.Retries.{creations, check_server-Creates}
use microstack.Launch.{Report, launch, publish, username}
use microstack.Launch.Launched.{IsLaunched, launch_waits}
use microstack.Tests.{new_world, calm}

abbrev args : Args
args = record {
  image = "cirros";
  key = "other";
  flavor = "m1.tiny";
  net_id = "test";
  wait = true;
  retry = true;
  availability_zone = none;
}

abbrev servers : Json
servers = arr (cons (obj (field "ID" (str "server-1") (field "Status" (str "ACTIVE") end))) nil)

-- The list of servers has one, and a command that makes a server gives its id.
abbrev cloud : Host
cloud = record (calm "" "") {
  output = λ _ args. elim args [ [] ↦ "" | _ ∷ [] ↦ "" | _ ∷ _ ∷ [] ↦ "" | _ ∷ _ ∷ c ∷ _ ↦ c ];
  loads = λ s. if s == "list" then some servers else some (obj (field "id" (str "server-1") end));
  patience = 13000;
}

active_here : (id old : String) → "server-1" ≡ id → listed_status cloud servers id old ≡ ok "ACTIVE"
unfolding listed_status scan entry_status status_of microstack.Json.truthy microstack.Shell.to_str
    get and_then
active_here id old e = subst (λ x. listed_status cloud servers x old ≡ ok "ACTIVE") e refl

cloud_shown :
    (p : Poll) (s : String) (w v : World)
    → p.server_id ≡ "server-1"
    → observe cloud p w ≡ (ok s, v)
    → "ACTIVE" ≡ s
unfolding observe check_output strip ◌>>=◌
cloud_shown p s w v i e = let e' = rw (active_here p.server_id p.status (sym i)) at e in cc

cloud_settles : Settles cloud "vm" args (λ id. id ≡ "server-1")
unfolding observe replace create_server delete_server check check_output listed_status scan
    entry_status status_of microstack.Json.truthy microstack.Shell.to_str id_of get strip ◌>>=◌
cloud_settles = record {
  shown = λ p s w v i e. subst (λ x. known x ≡ true) (cloud_shown p s w v i e) refl;
  replaced = λ id new w v e. cc;
}

check_server_ends_example :
    (check_server cloud "vm" "server-1" args new_world).0 ≢ raised still_waiting
check_server_ends_example =
    check_server_ends cloud "vm" args (λ id. id ≡ "server-1") cloud_settles "server-1" new_world
      refl (omega arith)

check_server-Creates_example :
    creations (check_server cloud "vm" "server-1" args new_world).1.log ≤ 0 + 11
check_server-Creates_example = check_server-Creates cloud "vm" args "server-1" new_world

abbrev checked : World
checked = (check_server cloud "vm" "server-1" args new_world).1

checked_run :
    check_server cloud "vm" "server-1" args new_world ≡ (ok ("ACTIVE", "server-1"), checked)
unfolding check_server poll_loop observe check_output listed_status scan entry_status status_of
    microstack.Json.truthy microstack.Shell.to_str get strip judge judge_error follow ◌>>=◌
checked_run = refl

check_server-final_example : final "ACTIVE" ≡ true
check_server-final_example =
    check_server-final cloud "vm" args refl "server-1" new_world checked "ACTIVE" "server-1"
      checked_run

abbrev report : Report
report = record {
  status = "ACTIVE";
  access = "ssh -i /path/to/ssh/key cirros@ip";
  dashboard = "http://config.network.ext-gateway:config.network.ports.dashboard";
}

abbrev launched : World
launched = (launch cloud "vm" args new_world).1

launched_run : launch cloud "vm" args new_world ≡ (ok report, launched)
unfolding launch publish username create_server id_of check_server poll_loop observe check
    check_output listed_status scan entry_status status_of microstack.Json.truthy
    microstack.Shell.to_str get strip judge judge_error follow has_part lower ◌>>=◌
launched_run = refl

launch_waits_example : (l : IsLaunched cloud "vm" args report launched) × (l.status ≡ "ACTIVE")
launch_waits_example = launch_waits cloud "vm" args report new_world launched refl launched_run
