-- ===== src/Lib.antt =====
-- A model of the SQL engine: how a query goes from text to rows, how rows are stored, and how
-- transactions lock, end and are recovered.
--
-- A text is cut into tokens and parsed to a statement (Parser, over the syntax trees of Ast). The
-- binder resolves its names against the catalog and checks types (Binder, over Catalog, Schema and
-- Functions). The planner makes a logical plan of it, which the rewriter changes (Plan). Physical
-- operators, generated from it (Physical), hand out rows one by one (Exec), evaluate expressions on
-- them (Eval), and read records that the storage has serialized (Record) on the pages of files
-- (Files). A table heap (Heap) keeps these records in slots of pages, which it reaches through the
-- buffer pool (Buffer) over the files. A session (Session) opens and ends transactions: it calls the
-- transaction manager (Tx), the lock manager (Lock) and the write-ahead log (Wal), from which a
-- storage is recovered. The storage engine (Engine) puts heaps and indexes (Tree) together, and executes
-- INSERT, UPDATE and DELETE on them; Stats counts the rows and values of a table, and a connection
-- (Connection) reads statements from a client and writes the results.
--
-- The files and the code:
--   Base, Base/…                shared: numbers, lists, maps, texts, results; Numbers has the numbers
--                               that std::to_string writes and std::stoi and std::stoll read
--   Lock, Lock/…                lockManager/LockManager.h, LockManager.cpp: lockShared as lock_shared,
--                               lockExclusive as lock_exclusive, unlock, releaseTransactionLocks
--   Tx, Tx/…                    transactionManager/TransactionManager.h, TransactionManager.cpp
--   Schema                      schema/Schema.h, Schema.cpp: the constructor is make_schema
--   Record, Record/…            record/Record.h, Record.cpp: the checking constructor is make_row
--   Files, Files/…              fileManager/FileManager.h, FileManager.cpp, with the page size as an
--                               argument
--   Buffer, Buffer/…            bufferManager/BufferManager.h, BufferManager.cpp: fetchPage as
--                               fetch_page, selectVictimFrame as select_victim; a pointer to a page is
--                               the index of its frame
--   Heap, Heap/…                tableHeap/TableHeap.h, TableHeap.cpp: the private helpers on a page are
--                               Slots, the methods (insertRecord as insert_record) stand in Heap
--   Wal, Wal/…                  _WALManager/WALManager.h, WALManager.cpp: recover is split into read_log
--                               (Read) and replay (Recovery), over the replay methods of a storage,
--                               which Stored takes from the engine
--   Session, Session/…          queryEngine/lockOptimized/QueryEngine.h, QueryEngine.cpp: executeQuery as
--                               execute_query, with COMMIT and ROLLBACK as run_end
--                               Session/Plain: queryEngine/QueryEngine.h, QueryEngine.cpp
--   Tree, Tree/…                bPlusTree/BPlusTree.h: insertRecursive on a leaf as insert_leaf (Tree),
--                               find, remove and rangeScan as find_key, remove_key and range_scan
--                               (Nodes), insert as insert_key (Insert)
--   Engine, Engine/…            storageEngine/StorageEngine.h, StorageEngine.cpp (Engine), over an
--                               interface that Heap and Tree fill (Paged), and the second executeQuery
--                               of queryOptimizerAndPlanner/QueryEngine.h (Statements)
--   Stats, Stats/…              StatsManager/StatsManager.h, StatsManager.cpp
--   Connection, Connection/…    connectionManager/ConnectionManager.h, ConnectionManager.cpp
--   Ast                         catalog/AST.h
--   Parser, Parser/…            parser/Parser.h, Parser.cpp: Token and Lexer are tokenize, Monad the
--                               token reader, Expression and Statement the parse methods
--   Catalog, Catalog/…          catalog/Catalog.h, Catalog.cpp: load and save are in Saved
--   Functions, Functions/…      functionRegistry/FunctionRegistry.h, FunctionRegistry.cpp
--   Binder, Binder/…            binder/Binder.h, Binder.cpp
--   Plan, Plan/…                queryOptimizerAndPlanner/LogicalOperator.h, planner/Planner.cpp and
--                               rewriter/Rewriter.h, Rewriter.cpp
--   Eval, Eval/…                physicalOperator/expressionEvaluator/ExpressionEvaluator.cpp
--   Exec, Exec/…                physicalOperator/ (tableScan, filter, project, executor/Executor.h) and
--                               queryOptimizerAndPlanner/nestedLoopJoin/NestedLoopJoin.h
--   Physical, Physical/…        queryOptimizerAndPlanner/PhysicalPlanGenerator.h, the constructor of
--                               physicalOperator/tableScan/TableScan.cpp, and executeQuery of
--                               queryOptimizerAndPlanner/QueryEngine.h for SELECT
-- The modules named Examples hold runs at concrete inputs.
--
-- State is passed on explicitly: a method that changes an object returns the new object. An
-- exception is an `err` with a constructor of Base.Results.Error for each message; behaviour that
-- C++ leaves undefined (a signed overflow, a division by zero, a copy past the end of a buffer) is
-- `err undefined`. An std::unordered_map is an association list, read by its first entry of a key.
-- Texts are lists of bytes. An `int` is an integer, with its range of 32 bits written out where
-- arithmetic leaves it; the ids of transactions and the sizes of buffers do not reach 2 ^ 63.
--
-- Fuel: the tokenizer has one unit more than the text has characters, the parser one more than
-- there are tokens, and both are enough for every text. The rewriter makes at most five rounds, as
-- the code does. The operators take their fuel as an argument, with a bound on what is enough where
-- a result is stated. The clock of the buffer pool makes one round over the frames, the loops over
-- pages and slots as many as there are, as in the code.
--
-- MAX_KEYS of the index and the fuel of its descent are arguments too: a tree of one leaf needs one
-- unit. It is as far as the index is stated to be right, since the insertion that would split a leaf
-- writes behind its array first.
--
-- Not modelled: the storage engine with locks and log (a placeholder stands for the keys of its UPDATE
-- and DELETE); what a session executes, which is a parameter of Session, as the calls of the storage
-- are of Exec and Wal; the constructors of the query engines; the optimizer with its costs,
-- the counters of the MetricsManager, the sockets themselves and the monitoring server. The pages of an index stand apart from the buffer
-- pool. Streams fail in one place only, where recovery opens the log again; what is written to
-- a stream is in the file after a flush and not before. Page ids are not negative where the code does
-- not test them. The branch of parsePrimary for calls of functions is left out: it is never reached.
mod Base
pub mod Lock
pub mod Tx
pub mod Schema
pub mod Files
pub mod Record
pub mod Ast
pub mod Parser
pub mod Catalog
pub mod Functions
pub mod Binder
pub mod Plan
pub mod Eval
pub mod Heap
pub mod Wal
pub mod Buffer
pub mod Session
pub mod Engine
pub mod Connection
pub mod Stats
pub mod Tree
pub mod Exec
pub mod Physical
