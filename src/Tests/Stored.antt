-- ===== src/Tests/Stored.antt =====
-- A question of `init` on a concrete host, and what it leaves.
use microstack.Base.{String, ◌<>◌, ◌≡◌, refl, ap, false, some, none, []}
use microstack.Machine.{Host, World}
use microstack.Machine.Adds.{Adds-pure, Adds-then}
use microstack.Machine.Monad.{ok}
use microstack.Shell.Laws.{Adds-check}
use microstack.Shell.Snap.{snap, put}
use microstack.Question.{string, text, to_config}
use microstack.Question.Ask.{ask}
use microstack.Question.Adds.{Adds-load, Adds-input_func}
use microstack.Question.Stored.{IsPlainSpoken, ask-snap}
use microstack.Services.Adds.{Adds-load_rc}
use microstack.Services.Settings.{dns_servers_question, config_after}
use microstack.Tests.Runs.{quiet, snap_world}

dns-IsPlainSpoken : IsPlainSpoken (dns_servers_question quiet)
unfolding config_after
dns-IsPlainSpoken = record {
  loads = Adds-load quiet string _ refl;
  asks = λ prompt. Adds-input_func quiet false prompt (λ s. refl);
  says_yes = λ a. Adds-pure tt;
  says_no = λ a. Adds-pure tt;
  follows = λ a. Adds-then _ _ (Adds-check quiet _ refl) (Adds-load_rc quiet (λ path. refl));
}

abbrev dns_left : World
dns_left = (ask quiet (dns_servers_question quiet) snap_world).1

dns_ok : (ask quiet (dns_servers_question quiet) snap_world).0 ≡ ok (text "no")
unfolding ask microstack.Machine.Monad.◌>>=◌ microstack.Question.load microstack.Shell.check_output
    microstack.Question.Ask.tries microstack.Question.Ask.raw_answer microstack.Question.input_func
    microstack.Question.validate microstack.Question.from_config microstack.Base.lower
    microstack.Base.strip microstack.Question.Ask.conclude microstack.Question.save
    microstack.Question.truthy microstack.Shell.check config_after microstack.Rc.load_rc
    microstack.Base.Dict.lookup microstack.Base.readlines
dns_ok = refl

ask-snap_example :
    snap (λ key. none) dns_left.log
    ≡ put "config.network.dns-servers" (to_config string (text "no")) (λ key. none)
unfolding microstack.Base.Apart.is_key snap
ask-snap_example =
    ask-snap quiet (λ key. none) (dns_servers_question quiet) "config.network.dns-servers"
      dns-IsPlainSpoken tt refl refl (text "no") snap_world dns_left
      (ap (λ o. (o, dns_left)) dns_ok)
