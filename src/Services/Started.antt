-- ===== src/Services/Started.antt =====
-- The setup of the queue and of the database on a host where both services come up.
use microstack.Base.{
  ℕ, ◌<◌, String, ◌<>◌, ◌==◌, ◌≡◌, refl, Bool, false, ◌&&◌, some, List, [], ◌∷◌, All, strip,
}
use microstack.Base.Dict.{Dict, lookup}
use microstack.Json.{Json, obj, Fields, get}
use microstack.Machine.{History, Host, World}
use microstack.Machine.Monad.{ok}
use microstack.Machine.Performs.{Has}
use microstack.Machine.Returns.{
  Returns, Any, Returns-pure, Returns-lift, Returns-bind, Returns-at, Returns-then,
}
use microstack.Shell.{call, to_str}
use microstack.Shell.Waits.{OpensAfter}
use microstack.Shell.Lines.{AppearsAfter}
use microstack.Shell.Returned.{
  Succeeds, Gives, Returns-env_get, Returns-check, Returns-printed, Returns-enable,
  Returns-config_get, Returns-sql, Returns-nc_wait, Returns-log_wait,
}
use microstack.Question.{Answer}
use microstack.Cluster.Client.{item}
use microstack.Services.{url_of}
use microstack.Services.Returned.{Returns-unless_call}
use microstack.Services.Start.{
  wait_rabbit, configure_rabbit, rabbit_yes, wait_database, databases, create_db, create_each,
  create_dbs, bootstrap, database_yes,
}
use microstack.Services.Prepared.{prepared, database_yes-prepared}

-- `openstack NOUN show …`, which fails where there is nothing to show.
abbrev pub is_show : List String → Bool
is_show (program ∷ noun ∷ verb ∷ rest) = program == "openstack" && verb == "show"
is_show _ = false

abbrev pub port_command : String → List String
port_command service = "snapctl" ∷ "get" ∷ ("config.network.ports." <> service) ∷ []

-- A host on which every command succeeds, but for those that show, the database takes every
-- statement, the configuration has the passwords and a port for each of the two services, these
-- two ports open, and the logs say that the services are up, within the rounds for which a wait is
-- followed.
pub record IsHealthy (h : Host) (env : Dict String) : Type 0 where
  pub ip : String
  pub common : String
  pub snap : String
  pub keystone : String
  pub root : Json
  pub passwords : Fields
  pub runs : (args : List String) → is_show args ≡ false → Succeeds h args
  pub has_ip : lookup "control_ip" env ≡ some ip
  pub has_common : lookup "SNAP_COMMON" env ≡ some common
  pub has_snap : lookup "SNAP" env ≡ some snap
  pub has_keystone : lookup "keystone_password" env ≡ some keystone
  pub has_root : Gives h "config.credentials.mysql-root-password" root
  pub has_passwords : Gives h "config.credentials" (obj passwords)
  pub each : All (λ d. (j : Json) × (get (d.0 <> "-password") passwords ≡ some j)) databases
  pub accepts : (log : History) (cmd : String) → h.sql_fails log cmd ≡ false
  pub database_port : String
  pub queue_port : String
  pub has_database_port :
      (log : History) → strip (h.output log (port_command "mysql")) ≡ database_port
  pub has_queue_port : (log : History) → strip (h.output log (port_command "rabbit")) ≡ queue_port
  pub database_opens :
      (log : History) → (n : ℕ) × (n < h.patience) × OpensAfter h ip database_port n log
  pub queue_opens : (log : History) → (n : ℕ) × (n < h.patience) × OpensAfter h ip queue_port n log
  pub database_up :
      (old : History)
      → (n : ℕ) × (n < h.patience)
        × AppearsAfter h (common <> "/log/mysql/error.log") "mysqld: ready for connections." n old
  pub queue_up :
      (old : History)
      → (n : ℕ) × (n < h.patience)
        × AppearsAfter h (common <> "/log/rabbitmq/startup_log") "completed" n old

module _ (h : Host) (env : Dict String) (healthy : IsHealthy h env) where
  Returns-wait_database : Returns env Any (wait_database h)
  unfolding wait_database
  Returns-wait_database = Returns-then _ _ (Returns-enable h "mysqld" (healthy.runs _ refl)) (
      Returns-at healthy.database_port _ _
        (Returns-printed h _ _ (healthy.runs _ refl) healthy.has_database_port)
        (Returns-at healthy.ip _ _ (Returns-env_get _ _ healthy.has_ip) (
          Returns-then _ _ (Returns-nc_wait h healthy.ip _ healthy.database_opens) (
            Returns-at healthy.common _ _ (Returns-env_get _ _ healthy.has_common)
              (Returns-log_wait h _ _ healthy.database_up)))))

  Returns-wait_rabbit : Returns env Any (wait_rabbit h)
  unfolding wait_rabbit
  Returns-wait_rabbit =
      Returns-then _ _ (Returns-enable h "rabbitmq-server" (healthy.runs _ refl)) (
        Returns-at healthy.queue_port _ _
          (Returns-printed h _ _ (healthy.runs _ refl) healthy.has_queue_port)
          (Returns-at healthy.ip _ _ (Returns-env_get _ _ healthy.has_ip) (
            Returns-then _ _ (Returns-nc_wait h healthy.ip _ healthy.queue_opens) (
              Returns-at healthy.common _ _ (Returns-env_get _ _ healthy.has_common)
                (Returns-log_wait h _ _ healthy.queue_up)))))

  Returns-rabbit_yes : (a : Answer) → Returns env Any (rabbit_yes h a)
  unfolding rabbit_yes configure_rabbit
  Returns-rabbit_yes a = Returns-then _ _ Returns-wait_rabbit (
      Returns-at healthy.snap _ _ (Returns-env_get _ _ healthy.has_snap)
        (Returns-check h _ (healthy.runs _ refl)))

  statement : (cmd : String) → Returns env Any (microstack.Shell.sql h cmd)
  statement cmd =
      Returns-sql h cmd healthy.common healthy.root healthy.has_common healthy.has_root
        (λ log. healthy.accepts log cmd)

  Returns-create_db :
      (user db : String) (j : Json)
      → get (user <> "-password") healthy.passwords ≡ some j
      → Returns env Any (create_db h (obj healthy.passwords) user db)
  unfolding create_db item
  Returns-create_db user db j e =
      Returns-at j _ _ (Returns-lift _ j (rw (e, item) refl))
        (Returns-then _ _ (statement _) (Returns-then _ _ (statement _) (statement _)))

  Returns-create_each :
      (dbs : List (String × String))
      → All (λ d. (j : Json) × (get (d.0 <> "-password") healthy.passwords ≡ some j)) dbs
      → Returns env Any (create_each h (obj healthy.passwords) dbs)
  unfolding create_each
  Returns-create_each [] p = Returns-pure tt
  Returns-create_each ((user, db) ∷ rest) ((j, e), p) =
      Returns-then _ _ (Returns-create_db user db j e) (Returns-create_each rest p)

  Returns-create_dbs : Returns env Any (create_dbs h)
  unfolding create_dbs
  Returns-create_dbs =
      Returns-at (obj healthy.passwords) _ _ (Returns-config_get h _ _ healthy.has_passwords)
        (Returns-create_each databases healthy.each)

  Returns-bootstrap : Returns env Any (bootstrap h)
  unfolding bootstrap url_of
  Returns-bootstrap = Returns-unless_call h _ _ (
      Returns-bind _ _
        (Returns-at healthy.ip _ _ (Returns-env_get _ _ healthy.has_ip) (Returns-pure _))
        λ url _.
          Returns-at healthy.keystone _ _ (Returns-env_get _ _ healthy.has_keystone)
            (Returns-check h _ (healthy.runs _ refl)))

  Returns-database_yes : (a : Answer) → Returns env Any (database_yes h a)
  unfolding database_yes
  Returns-database_yes a = Returns-then _ _ Returns-wait_database (
      Returns-then _ _ Returns-create_dbs (
        Returns-then _ _ (Returns-check h _ (healthy.runs _ refl)) (
          Returns-then _ _ (Returns-enable h "nginx" (healthy.runs _ refl)) (
            Returns-then _ _ (Returns-check h _ (healthy.runs _ refl)) (
              Returns-then _ _ (Returns-check h _ (healthy.runs _ refl)) (
                Returns-then _ _ (Returns-enable h "keystone-uwsgi" (healthy.runs _ refl)) (
                  Returns-then _ _ Returns-bootstrap
                    (Returns-unless_call h _ _ (Returns-check h _ (healthy.runs _ refl))))))))))

  -- On a healthy host the setup of the queue and that of the database return, and keep the
  -- environment; the latter has then taken every step of the database, in the order of these. A
  -- host is healthy if every command succeeds but for those that show, the database takes every
  -- statement, the configuration has the passwords and the environment the addresses and paths,
  -- and the two ports that the configuration has for the queue and the database open, and their
  -- logs say that they are up, within the rounds for which a wait is followed. Nothing is asked of
  -- any other port.
  pub start-returns :
      (a : Answer) (w : World)
      → w.env ≡ env
      → ((v : World) × (rabbit_yes h a w ≡ (ok tt, v)) × (v.env ≡ env))
        × ((v : World) × (database_yes h a w ≡ (ok tt, v))
            × (v.env ≡ env)
            × Has prepared w.log v.log)
  start-returns a w e =
      let (x, u, p, _, k) = (Returns-rabbit_yes a).from w e in
      let (y, v, q, _, l) = (Returns-database_yes a).from w e in
      ((u, p, k), (v, q, l, database_yes-prepared h a w v q))
