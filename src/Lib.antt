-- ===== src/Lib.antt =====
-- A model of osmdbt, the tools that make replication diffs from an OpenStreetMap database.
--
-- The program. PostgreSQL sends the changes of the tables of nodes, ways and relations through a
-- logical replication slot. `osmdbt-get-log` decodes them, writes log files, with a line for each new
-- version of an object, and may then advance the slot; `osmdbt-catchup` advances it to the last log
-- file. `osmdbt-create-diff` reads log files, gets the objects that they name from the database,
-- writes a diff and the state of the replication, and moves both into place. `osmdbt-fake-log` writes
-- log files from the tables themselves. The programs share files only: what one writes, the next one
-- reads. A PID file keeps two programs that write logs from running at once.
--
-- The files of the model, with the sources by their paths in the repository:
-- - Base: numbers, lists, texts, and Result for calls that throw.
-- - Cstd: the functions of the C and C++ libraries on numbers in texts and on lines.
-- - Lsn: lsn_type (src/lsn.hpp, src/lsn.cpp). `parse` is the constructor from a text.
-- - Pgoutput: the parser of the binary messages (src/pgoutput.hpp, src/pgoutput.cpp). Pgoutput.Reader
--   is row_low_level_parser, Pgoutput.Protocol describes the messages as PostgreSQL documents them.
-- - GetLog: the loop over the rows of the slot (`app` in src/osmdbt-get-log.cpp), GetLog.Hex is
--   hex2bytes, GetLog.App the rest of `app`. GetLog.Events describes the log by events, and
--   GetLog.Reading its reading.
-- - Posix: the calls of the operating system, as an interface with the documented behaviour of each;
--   Posix.Program is a run with the states that it passes, Posix.Meets and Posix.Ends
--   have rules for such runs.
-- - Io: rename_file, sync_dir, excl_write_open and PIDFile (src/io.hpp, src/io.cpp); Io.Lock has the
--   runs of the constructor of PIDFile and its destructor as steps in any order, Io.Refused a run
--   whose PID file is there.
-- - Util: the writing of a file under another name first, and the exit codes (src/util.hpp,
--   src/util.cpp).
-- - Config: the class Config (src/config.hpp, src/config.cpp); Config.Exits is a run without a usable
--   configuration.
-- - Options: what the programs take from their command lines (src/options.hpp, src/options.cpp).
-- - Db: get_db_version, get_db_major_version and catchup_to_lsn (src/db.hpp, src/db.cpp).
-- - Db.Server: a server of the database with its transactions, as an interface with laws; Replication:
--   the programs that create the publication and the slot and drop them
--   (src/osmdbt-enable-replication.cpp, src/osmdbt-disable-replication.cpp).
-- - TestDb: the test of the database (src/osmdbt-testdb.cpp), with what it writes; what
--   osmium::VerboseOutput does with a text is an interface.
-- - Pipeline: what `osmdbt-get-log` stores, as `osmdbt-create-diff` reads it.
-- - Programs: the programs that write log files, with their PID file.
-- - Osmium: what is taken from libosmium, as interfaces with the documented behaviour.
-- - Osmobj: osmobj, osmobjects and read_log (src/osmobj.hpp, src/osmobj.cpp); Osmobj.Reading is the
--   reading of one line, Osmobj.Sorting the sorting.
-- - CreateDiff: process_nodes, process_ways and process_relations (src/osmdbt-create-diff.cpp), and in
--   its modules the other functions of that file: Selection is the loop over the log files, Queries
--   the queries and their rows, NextState is get_state, Publish the lock file and the moves of the
--   files at the end, Diff the objects type by type, and App is `app`. CreateDiff.Order says what is
--   there if the moves are cut short, CreateDiff.Finish what the next run begins with.
-- - LogNames: which files of the log directory are logs, and the expression for their names
--   (src/osmdbt-catchup.cpp, src/osmdbt-create-diff.cpp); LogNames.Entries has the names that the
--   programs give.
-- - Catchup: get_lsn (src/osmdbt-catchup.cpp), which reads LSNs in the names of log files, and `app`.
-- - FakeLog: log_entry, the loop of read_objects, the loop that writes the files, read_log_files and
--   `app` (src/osmdbt-fake-log.cpp); FakeLog.Selected has the rows that the given logs leave out.
-- - State: the class State (src/state.hpp, src/state.cpp); State.Write is its `write`.
-- - Tests: runs, and the theorems at concrete inputs.
--
-- State and errors. A method that changes its object takes the object and returns it with its
-- result; the loops carry their variables in records (`Log`, `Progress`, `Writing`). An exception
-- is a value of Result, and so is behaviour that C++ leaves undefined or an assertion that fails
-- (`fault`). Code that calls the system is a Program: a function of the state of the machine,
-- which gives the states after each call, the last one and a Result. The state of the machine is
-- unknown, but for the contents of files by their names and, where replication is set up, for the
-- publications and the slots of the database. A text is a list of bytes. Unsigned
-- numbers are natural numbers with their wrap-around written out; a signed number that is only
-- kept and compared is its bit pattern.
--
-- Bounds. All loops are structural, on the rows, the columns or the text. The digits of a number n
-- are computed with fuel n + 1, which is enough, since each step divides by the base.
--
-- Not modelled: the database, of which the results of queries and the calls are arguments; the parser
-- of YAML and the one of the command line, interfaces; messages to the user, but for those of the
-- test of the database; what libosmium does with the objects that are built and with the file of the
-- diff, which is there when the moves begin; and the directories, where only the calls are. A file
-- that exists but cannot be read is not told apart from one that does not exist.
pub mod Base
pub mod Cstd
pub mod LogNames
pub mod Replication
pub mod TestDb
pub mod Programs
pub mod Pipeline
pub mod Lsn
pub mod Pgoutput
pub mod GetLog
pub mod Posix
pub mod Io
pub mod Util
pub mod Config
pub mod Db
pub mod Options
pub mod Osmium
pub mod Osmobj
pub mod FakeLog
pub mod State
pub mod CreateDiff
pub mod Catchup
pub mod Tests
