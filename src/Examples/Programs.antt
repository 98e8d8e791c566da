-- ===== src/Examples/Programs.antt =====
-- examples/basic/main.go on a database that logs its statements.
use dyndao.Base.{refl, some}
use dyndao.Base.Int.{pos}
use dyndao.Base.Outcome.{ok}
use dyndao.Orm.{Database}
use dyndao.Basic.{Connection, main}
use dyndao.Basic.Runs.{Runs, main-Runs}
use dyndao.Examples.Data.{World, world, database, note, schema, std}

abbrev logging : Database World
logging = record database {
  exec = λ stmt args w.
      (ok (record { last_insert_id = ok (pos 0); rows_affected = ok (pos 0); out_id = pos 0 }), w);
}

abbrev connection : Connection World
connection = record { database = logging; close = λ w. (ok tt, note "close" w) }

main-Runs_example :
    Runs std
      (λ vs. vs)
      ""
      schema
      connection
      (λ w. w.log)
      world
      (main std (λ vs. vs) "" schema (λ driver dsn w. (ok (some connection), w)) "" world)
main-Runs_example =
    main-Runs std (λ vs. vs) "" schema (λ driver dsn w. (ok (some connection), w)) "" connection
      (λ w. w.log) world world refl
      (record { live = λ w. refl; prepares = λ tx sql w. refl; executes = λ stmt args w. refl })
      (record {
        log_prepare = λ tx sql w. refl;
        log_exec = λ stmt args w. refl;
        log_close = λ stmt w. refl;
      })
      λ w. refl
