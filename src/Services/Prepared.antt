-- ===== src/Services/Prepared.antt =====
-- The order in which the database of a control node is set up.
use microstack.Base.{String, ◌<>◌, ◌≡◌, List, [], ◌∷◌, ◌++◌}
use microstack.Json.{Json}
use microstack.Machine.{Event, command, executed_sql, Host, World}
use microstack.Machine.Monad.{ok}
use microstack.Machine.Adds.{Adds, Adds-lift}
use microstack.Machine.Performs.{
  Has, Performs, Performs-nil, Performs-bind, Performs-then, Performs-before,
}
use microstack.Shell.Laws.{Adds-config_get}
use microstack.Shell.Performed.{Performs-check, Performs-enable, Performs-sql}
use microstack.Question.{Answer}
use microstack.Services.Start.{
  wait_database, databases, create_db, create_each, create_dbs, bootstrap, database_yes,
}
use microstack.Init.Marks.{Unmarked, unmarked_rules}
use microstack.Init.Marks.Controls.{Unmarked-url_of}

-- What makes a database, newest first: it is created, and then its user may use it.
abbrev pub made : String × String → List Event
made (user, db) =
    executed_sql ("GRANT ALL PRIVILEGES ON " <> db <> ".* TO '" <> user <> "'@'%';")
    ∷ executed_sql ("CREATE DATABASE IF NOT EXISTS `" <> db <> "`;")
    ∷ []

-- The databases, one after the other, newest first.
abbrev pub all_made : List (String × String) → List Event
all_made [] = []
all_made (d ∷ rest) = all_made rest ++ made d

abbrev ready_event : Event
ready_event = command ("snapctl" ∷ "set" ∷ "database.ready=true" ∷ [])

abbrev pub launched : String → List String → Event
launched program args = command ("snap-openstack" ∷ "launch" ∷ program ∷ args)

abbrev pub enabled : String → Event
enabled service = command ("snapctl" ∷ "start" ∷ "--enable" ∷ ("microstack." <> service) ∷ [])

-- The steps of the database, newest first.
abbrev pub prepared : List Event
prepared =
    enabled "keystone-uwsgi"
      ∷ launched "keystone-manage" ("db_sync" ∷ [])
      ∷ launched "keystone-manage"
          ("fernet_setup" ∷ "--keystone-user" ∷ "root" ∷ "--keystone-group" ∷ "root" ∷ [])
      ∷ enabled "nginx"
      ∷ ready_event
      ∷ all_made databases
    ++ (enabled "mysqld" ∷ [])

module _ (h : Host) where
  Performs-create_db :
      (j : Json) (user db : String) → Performs (made (user, db)) (create_db h j user db)
  unfolding create_db
  Performs-create_db j user db = Performs-then _ _ _ (Adds-lift {P = Unmarked} _) λ password.
      Performs-then {P = Unmarked} _ _ _ (search unmarked_rules)
        λ _. Performs-bind _ _ _ _ (Performs-sql h _) (λ _. Performs-sql h _)

  Performs-create_each :
      (j : Json) (dbs : List (String × String)) → Performs (all_made dbs) (create_each h j dbs)
  unfolding create_each
  Performs-create_each j [] = Performs-nil {P = Unmarked} _ (search unmarked_rules)
  Performs-create_each j ((user, db) ∷ rest) =
      Performs-bind _ _ _ _ (Performs-create_db j user db) (λ _. Performs-create_each j rest)

  Performs-create_dbs : Performs (all_made databases) (create_dbs h)
  unfolding create_dbs
  Performs-create_dbs =
      Performs-then _ _ _ (Adds-config_get {P = λ _. Unit} h ("config.credentials" ∷ []) tt)
        λ db_creds. Performs-create_each db_creds databases

  Performs-wait_database : Performs (enabled "mysqld" ∷ []) (wait_database h)
  unfolding wait_database
  Performs-wait_database =
      Performs-before {P = Unmarked} _ _ _ (Performs-enable h "mysqld")
        (λ _. search unmarked_rules depth 40 fits 20000)

  Unmarked-bootstrap : Adds Unmarked (bootstrap h)
  unfolding bootstrap
  Unmarked-bootstrap = search (unmarked_rules, Unmarked-url_of) depth 40 fits 20000

  Performs-database_yes : (a : Answer) → Performs prepared (database_yes h a)
  unfolding database_yes
  Performs-database_yes a = Performs-bind _ _ _ _ Performs-wait_database λ _.
      Performs-bind _ _ _ _ Performs-create_dbs λ _. Performs-bind _ _ _ _ (Performs-check h _) λ _.
        Performs-bind _ _ _ _ (Performs-enable h "nginx") λ _.
          Performs-bind _ _ _ _ (Performs-check h _) λ _.
            Performs-bind _ _ _ _ (Performs-check h _) λ _.
              Performs-before {P = Unmarked} _ _ _ (Performs-enable h "keystone-uwsgi")
                λ _. search (unmarked_rules, Unmarked-bootstrap) depth 40 fits 20000

  -- A setup of the database that returns has, in this order, enabled mysqld, created each of the
  -- eight databases and granted its user the use of it, set database.ready, enabled nginx, set
  -- Keystone's keys up, brought its tables up to date, and enabled keystone-uwsgi.
  pub database_yes-prepared :
      (a : Answer) (w v : World) → database_yes h a w ≡ (ok tt, v) → Has prepared w.log v.log
  database_yes-prepared a w v e = (Performs-database_yes a).from w v tt e
