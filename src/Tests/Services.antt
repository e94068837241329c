-- ===== src/Tests/Services.antt =====
-- The setup of services on concrete hosts.
use microstack.Base.{String, ◌≡◌, refl, true, some, [], ◌∷◌, ◌++◌, strip, words}
use microstack.Json.{is_str, Json, str, obj, arr, Items, field, end, nil, cons, get}
use microstack.Machine.{Host, World, command}
use microstack.Machine.Adds.{Between}
use microstack.Machine.Monad.{ok, and_then, ◌>>=◌}
use microstack.Shell.{check, check_output}
use microstack.Question.{flag}
use microstack.Cluster.Client.{item}
use microstack.Services.Compute.{placement_yes, nova_yes}
use microstack.Services.Storage.{cinder_yes, glance_yes}
use microstack.Services.Networks.{neutron_yes}
use microstack.Services.Reruns.{MakesNothing, Complete, rerun-MakesNothing}
use microstack.Services.Compute.Virtualization.{
  hw_virt, find_field, vendor_of, flags_of, data_of, split_of, judge_cpu, entries,
  maybe_enable_emulation, is_hw_virt_supported, judge_vendor, list_is,
}
use microstack.Services.Compute.Flags.{HasFlag, Prints, chosen, maybe_enable_emulation-HasFlag}
use microstack.Shell.{config_set}
use microstack.Base.{◌⊎◌}
use microstack.Services.Networks.Rules.{
  security_yes, group_command, rules_command, scan_document, scan_rules, scan_rule, make_rules,
}
use microstack.Services.Networks.Rules.Missing.{any_rule, rule_events, security_yes-log}
use microstack.Tests.{new_world, calm}

abbrev pub ready : Host
ready = calm "listed" ""

ready-Complete : Complete ready
unfolding strip
ready-Complete = record { shows = λ _ _ _. refl; lists = λ _ _. refl }

abbrev pub addressed : World
addressed = record {
  log = [];
  env =
      ("control_ip", "10.20.20.1")
      ∷ ("compute_ip", "10.20.20.1")
      ∷ ("extcidr", "10.20.20.1/24")
      ∷ [];
}

rerun-MakesNothing_example :
    Between MakesNothing [] (placement_yes ready (flag true) addressed).1.log
    × Between MakesNothing [] (nova_yes ready (flag true) addressed).1.log
    × Between MakesNothing [] (cinder_yes ready (flag true) addressed).1.log
    × Between MakesNothing [] (neutron_yes ready (flag true) addressed).1.log
    × Between MakesNothing [] (glance_yes ready (flag true) addressed).1.log
rerun-MakesNothing_example = rerun-MakesNothing ready ready-Complete (flag true) addressed

abbrev entry : String → String → Json
entry name value = obj (field "field" (str name) (field "data" (str value) end))

abbrev intel : Items
intel =
    cons (entry "Architecture:" "x86_64")
      (cons (entry "Vendor ID:" "GenuineIntel") (cons (entry "Flags:" "fpu vmx") nil))

-- A host of this processor.
abbrev intel_host : Host
intel_host = record (calm "" "") { loads = λ _. some (obj (field "lscpu" (arr intel) end)) }

abbrev chosen_world : World
chosen_world = (maybe_enable_emulation intel_host new_world).1

chosen_run : maybe_enable_emulation intel_host new_world ≡ (ok tt, chosen_world)
unfolding maybe_enable_emulation is_hw_virt_supported check_output config_set check entries strip
    hw_virt find_field item get and_then data_of split_of flags_of vendor_of judge_cpu judge_vendor
    list_is is_str words ◌>>=◌
chosen_run = refl

maybe_enable_emulation-HasFlag_example :
    (info : Items) × Prints intel_host [] info
    × ((HasFlag info × (chosen_world.log ≡ chosen "kvm" []))
        ⊎ ((¬ HasFlag info) × (chosen_world.log ≡ chosen "qemu" [])))
maybe_enable_emulation-HasFlag_example =
    maybe_enable_emulation-HasFlag intel_host new_world chosen_world chosen_run

-- It is KVM that is stored.
chosen_kvm : chosen_world.log ≡ chosen "kvm" []
unfolding maybe_enable_emulation is_hw_virt_supported check_output config_set check entries strip
    hw_virt find_field item get and_then data_of split_of flags_of vendor_of judge_cpu judge_vendor
    list_is is_str words ◌>>=◌
chosen_kvm = refl

abbrev one_rule : Items
one_rule =
    cons (obj (field "Security Group" (str "sg-1") (field "IP Protocol" (str "icmp") end))) nil

abbrev guarded : Host
guarded = record (calm "sg-1" "") { loads = λ _. some (arr one_rule) }

abbrev secured : World
secured = (security_yes guarded (flag true) new_world).1

secured_run : security_yes guarded (flag true) new_world ≡ (ok tt, secured)
unfolding security_yes scan_document scan_rules scan_rule make_rules item get and_then is_str strip
    check check_output ◌>>=◌
secured_run = refl

security_yes-log_example :
    secured.log
    ≡ rule_events
        (strip "sg-1")
        (any_rule (strip "sg-1") "icmp" one_rule)
        (any_rule (strip "sg-1") "tcp" one_rule)
      ++ (command rules_command ∷ command group_command ∷ [])
security_yes-log_example =
    security_yes-log guarded (flag true) new_world secured one_rule refl secured_run
