-- ===== src/Tests/Command.antt =====
-- A run of the command `init` from its command line.
use microstack.Base.{◌≤◌, ◌≡◌, refl, ap, sym, ◌∙◌, String, Bool, true, false, none, some, [], ◌∷◌}
use microstack.Machine.{World}
use microstack.Machine.Monad.{ok}
use microstack.Machine.Performs.{Has}
use microstack.Init.{InitArgs}
use microstack.Init.Arguments.{parse_init_args}
use microstack.Init.Arguments.Checked.{IsAddress}
use microstack.Init.Questions.{init, init_command}
use microstack.Init.Command.{init_command-init, init_command-marked}
use microstack.Init.Marks.Marked.{marked}
use microstack.Tests.Clusters.{codec}
use microstack.Tests.Runs.{quiet, snap_world, readers, interfaces, line, parsed, line_parses}

abbrev command_left : World
command_left = (init_command readers interfaces line quiet codec [] snap_world).1

parsed_ok : (init quiet codec [] parsed snap_world).0 ≡ ok tt
unfolding init microstack.Machine.Monad.◌>>=◌ microstack.Shell.check_output microstack.Base.strip
    microstack.Init.process_init_args microstack.Shell.config_set microstack.Question.Ask.ask
    microstack.Question.load microstack.Question.Ask.tries microstack.Question.Ask.raw_answer
    microstack.Question.input_func microstack.Question.validate microstack.Question.from_config
    microstack.Base.lower microstack.Question.Ask.conclude microstack.Clustering.Node.clustering_no
    microstack.Shell.disable microstack.Shell.check microstack.Question.save
    microstack.Services.Settings.config_after microstack.Rc.load_rc microstack.Base.Dict.lookup
    microstack.Base.readlines microstack.Network.network_yes microstack.Shell.enable
    microstack.Network.gateway_yes microstack.Shell.config_get microstack.Json.truthy
    microstack.Cluster.Client.item microstack.Json.get microstack.Network.env_set
    microstack.Services.Start.rabbit_no microstack.Services.Start.database_no
    microstack.Services.Compute.placement_no microstack.Services.Compute.nova_no
    microstack.Services.Compute.spice_no microstack.Services.Compute.Virtualization.hypervisor_no
    microstack.Services.Networks.neutron_no microstack.Services.Storage.glance_no
    microstack.Services.Storage.cinder_no microstack.Services.Storage.lvm_no
    microstack.Services.Start.post_setup_yes microstack.Shell.restart microstack.Services.for_each
    microstack.Question.truthy microstack.Json.is_str
parsed_ok = refl

command_returns :
    init_command readers interfaces line quiet codec [] snap_world ≡ (ok tt, command_left)
command_returns =
    ap (λ o. (o, command_left))
      (ap (λ x. x.0)
          (init_command-init readers interfaces line quiet codec [] parsed snap_world line_parses)
        ∙ parsed_ok)

init_command-marked_example :
    (a : InitArgs) × (parse_init_args readers interfaces line ≡ ok a)
    × (init quiet codec [] a snap_world ≡ (ok tt, command_left))
    × (1 ≤ a.loop_device_file_size)
    × IsAddress readers a.default_source_ip
    × Has marked [] command_left.log
init_command-marked_example =
    init_command-marked readers interfaces line quiet codec [] snap_world command_left
      command_returns
