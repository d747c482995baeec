-- ===== src/Lock/Mysql/Tests.antt =====
-- src/standalone/database-lock.ts: quoting, locks and TLS of MySQL at concrete values.
use dbdock.Base.{◌≡◌, refl, Text, codes, true, false, some, List, [], ◌∷◌, ◌++◌}
use dbdock.Base.Effect.{Effect, ok, err}
use dbdock.Lock.Mysql.{
  MysqlClient, quote_mysql_identifier, mysql_drop, double_ticks, reset_mysql, lock_kind, mysql_lock,
}
use dbdock.Lock.Mysql.Quoting.{read_identifier, read-quote_mysql_identifier}
use dbdock.Lock.Mysql.Cleanup.{Restored, reset_mysql-Restored}

abbrev odd : Text
odd = codes "a`; DROP TABLE b"

drop_test :
    mysql_drop (record { kind = codes "TABLE"; name = odd })
    ≡ codes "DROP TABLE IF EXISTS `a``; DROP TABLE b`"
unfolding mysql_drop quote_mysql_identifier double_ticks
drop_test = refl

read-quote_mysql_identifier_example :
    read_identifier (quote_mysql_identifier odd ++ codes ";") ≡ some (odd, codes ";")
read-quote_mysql_identifier_example = read-quote_mysql_identifier odd (codes ";") refl

kind_test : lock_kind (codes "mariadb") ≡ mysql_lock
unfolding lock_kind
kind_test = refl

-- The world is the statements sent; the drop of the one table fails.
abbrev say : Text → Effect Unit (List Text) Unit
say t w = (ok tt, w ++ t ∷ [])

abbrev client : MysqlClient Unit (List Text)
client = record {
  connect = say (codes "connect");
  get_lock = λ name w. (ok true, w);
  release_lock = say;
  close = say (codes "close");
  objects = λ w. (ok (record { kind = codes "TABLE"; name = odd } ∷ []), w);
  foreign_key_checks = λ on w. elim on [ true ↦ say (codes "on") w | false ↦ say (codes "off") w ];
  execute = λ statement w. (err tt, w);
}

reset_mysql-Restored_example : Restored client [] (reset_mysql client [])
reset_mysql-Restored_example = reset_mysql-Restored client []
