-- ===== src/Services/Unready.antt =====
-- A setup of the database that fails before the database is ready.
use microstack.Base.{String, ◌≡◌, refl, sym, ap, ◌∙◌, List, [], ◌∷◌}
use microstack.Json.{Json}
use microstack.Machine.{Host, World, Error}
use microstack.Machine.Monad.{Action, raised, ◌>>◌}
use microstack.Machine.Adds.{Adds, adds_rules, Adds-then, Adds-bind, Adds-lift}
use microstack.Machine.Extends.{Extends, Extends-bind, Extends-first}
use microstack.Shell.Laws.{
  Adds-enable, Adds-check_output, Adds-env_get, Adds-nc_wait, Adds-log_wait, Adds-config_get,
}
use microstack.Shell.Snap.{Snap, Keeps, snap, snap-append}
use microstack.Question.{Answer}
use microstack.Services.Adds.{Adds-sql}
use microstack.Services.Start.{
  wait_database, databases, create_db, create_each, create_dbs, database_yes,
}

module _ (h : Host) where
  Keeps-wait_database : Adds Keeps (wait_database h)
  unfolding wait_database
  Keeps-wait_database = Adds-then _ _ (Adds-enable h "mysqld" refl) (
      Adds-bind _ _ (Adds-check_output h _ refl) λ port. Adds-bind _ _ (Adds-env_get _) λ ip.
        Adds-then _ _ (Adds-nc_wait h ip port refl refl)
          (Adds-bind _ _ (Adds-env_get _) λ common. Adds-log_wait h _ _ refl refl))

  Keeps-create_each : (j : Json) (dbs : List (String × String)) → Adds Keeps (create_each h j dbs)
  unfolding create_each create_db
  Keeps-create_each j [] = search adds_rules
  Keeps-create_each j ((user, db) ∷ rest) =
      Adds-then _ _
        (Adds-bind _ _ (Adds-lift _) λ password.
          Adds-then _ _ (Adds-sql h _ refl refl)
            (Adds-then _ _ (Adds-sql h _ refl refl) (Adds-sql h _ refl refl)))
        (Keeps-create_each j rest)

  Keeps-create_dbs : Adds Keeps (create_dbs h)
  unfolding create_dbs
  Keeps-create_dbs =
      Adds-bind _ _ (Adds-config_get h ("config.credentials" ∷ []) refl)
        (λ j. Keeps-create_each j databases)

  -- The setup as far as the databases.
  abbrev pub up_to_databases : Action (Unit {0})
  up_to_databases = do wait_database h; create_dbs h

  Extends-database_yes : (a : Answer) → Extends up_to_databases (database_yes h a)
  unfolding database_yes
  Extends-database_yes a = Extends-bind _ _ _ (λ _. Extends-first (create_dbs h) _)

  -- Whatever raises while the database comes up and its databases are made is raised by the whole
  -- setup, in the same world, and leaves the configuration as it was: database.ready is not set.
  pub database_yes-unready :
      (m : Snap) (a : Answer) (w v : World) (x : Error)
      → up_to_databases w ≡ (raised x, v)
      → (database_yes h a w ≡ (raised x, v)) × (snap m v.log ≡ snap m w.log)
  database_yes-unready m a w v x e =
      let b = (Adds-then _ _ Keeps-wait_database Keeps-create_dbs).from w in
      (
        (Extends-database_yes a).same w v x e,
        ap (λ r. snap m r.1.log) (sym e) ∙ ap (snap m) b.eq ∙ snap-append m b.new w.log b.each,
      )
