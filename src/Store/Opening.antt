-- ===== src/Store/Opening.antt =====
-- `Open`, `init` and `Close` of pkg/store/store.go: the database's directory, handle and schema.
pub mod Opened
use xns.Common.{List, [], ◌∷◌, ◌++◌, Bytes, codes}
use xns.Session.{Outside, Session, ask, ◌>>=◌, ◌>>◌, or_first}

-- The schema, line by line.
abbrev pub schema_lines : List Bytes
schema_lines =
    codes "CREATE TABLE IF NOT EXISTS meta ("
    ∷ codes "\tkey TEXT PRIMARY KEY,"
    ∷ codes "\tvalue TEXT NOT NULL"
    ∷ codes ");"
    ∷ codes "CREATE TABLE IF NOT EXISTS names ("
    ∷ codes "\tname TEXT PRIMARY KEY,"
    ∷ codes "\towner_key TEXT NOT NULL,"
    ∷ codes "\texpiration_height INTEGER NOT NULL,"
    ∷ codes "\tfirst_claim_height INTEGER NOT NULL,"
    ∷ codes "\tlast_update_height INTEGER NOT NULL"
    ∷ codes ");"
    ∷ codes "CREATE TABLE IF NOT EXISTS name_txids ("
    ∷ codes "\tname TEXT NOT NULL,"
    ∷ codes "\ttxid TEXT NOT NULL,"
    ∷ codes "\tposition INTEGER NOT NULL,"
    ∷ codes "\tPRIMARY KEY (name, txid),"
    ∷ codes "\tFOREIGN KEY (name) REFERENCES names(name) ON DELETE CASCADE"
    ∷ codes ");"
    ∷ codes "CREATE TABLE IF NOT EXISTS events ("
    ∷ codes "\ttxid TEXT PRIMARY KEY,"
    ∷ codes "\theight INTEGER NOT NULL,"
    ∷ codes "\tamount_atomic INTEGER NOT NULL,"
    ∷ codes "\tyears INTEGER NOT NULL,"
    ∷ codes "\tname TEXT,"
    ∷ codes "\towner_key TEXT,"
    ∷ codes "\taction TEXT NOT NULL,"
    ∷ codes "\treason TEXT,"
    ∷ codes "\tprevious_expiration_height INTEGER,"
    ∷ codes "\texpiration_height INTEGER"
    ∷ codes ");"
    ∷ []

-- Each line stands behind a line's end, and one more ends the text.
abbrev pub joined : List Bytes → Bytes
joined [] = codes "\n"
joined (line ∷ lines) = codes "\n" ++ line ++ joined lines

abbrev pub schema : Bytes
schema = joined schema_lines

-- `os.MkdirAll` of the directory of a path, and the calls of database/sql.
pub data Call : Type 0 where
  make_parent : Bytes → Call
  sql_open : Bytes → Call
  exec : Bytes → Call
  close : Call

abbrev pub Answer : Call → Type 0
Answer _ = Unit {0}

abbrev pub outside : Outside
outside = record { Call = Call; Answer = Answer }

abbrev pub Steps : Type 0 → Type 0
Steps A = Session outside A

unfoldable pub init : Steps (Unit {0})
init = ask (exec schema)

unfoldable pub open_db : Bytes → Steps (Unit {0})
open_db path = do
  ask (make_parent path)
  ask (sql_open (path ++ codes "?_journal_mode=WAL&_synchronous=FULL&_foreign_keys=ON"))
  or_first close init

unfoldable pub close_db : Steps (Unit {0})
close_db = ask close
