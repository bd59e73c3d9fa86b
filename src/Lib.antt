-- ===== src/Lib.antt =====
-- vs2017code: a verification of the core of the repository's servers.
--
-- The program. The trading servers store orders, trades, accounts, positions and cash flows in
-- MySQL through the database layer (dblayer): CDBOperation writes the text of each statement,
-- checks the connection before it, and reads the rows of a CRecordSet into structs. The message
-- servers cut the byte stream of a TCP connection into messages, by a delimiter (Deli_time_server,
-- and the copies of its codec) or by a header with the length (Custom_rules); a request has a
-- fixed header, which dealMessage takes apart before it acts on the command. The delimiter servers
-- share their MySQL connections in a pool (MysqlPool), which a thread fills and another one scans
-- for idle connections; the threads that handle requests use gzip and a MysqlConnection to store
-- the text of an upload and to answer a query. The quote client (quote_client) keeps the ticks
-- that it receives, computes price changes over windows of time, and sends them to the clients
-- that have logged in.
--
-- The parts.
--   Base, Base/*: names of the library passed on, byte strings, lists over the native numbers, and
--     the conversions of C++ integers with their wrap-around.
--   Framing/Delimiter: LengthHeaderCodec::onMessage of Deli_time_server/Deli_time_server/codec.cc.
--     Delimiter/Search and Delimiter/Stream hold its proofs.
--   Framing/Header: LengthHeaderCodec::send of the same file and the parsing of
--     comServer::dealMessage in server.cc; the packed header is a block of bytes into which strcpy
--     writes, and `none` is a write past its end.
--   Framing/LengthHeader: LengthHeaderCodec of
--     Custom_rules/comServer_costom/comServer_costom/codec.cc.
--   Dblayer/Platform: what the layer takes from outside the repository, as the record Platform:
--     the MySQL C API with a server state, and the conversions of etp/helper and boost; and the
--     state monad of its operations, with C++ exceptions and undefined behaviour as outcomes.
--   Dblayer/Database: CDataBase of dblayer/src/mysql/MysqlDataBase.cpp.
--   Dblayer/RecordSet: CRecordSet, CRecord and CField of MysqlRecordSet.cpp, MysqlRecord.cpp and
--     MysqlField.cpp in dblayer/src/mysql.
--   Dblayer/Operation, Dblayer/Statement, Dblayer/Single: the connection check, the updates, the
--     texts of statements and the bodies that the readers of dblayer/src/mysql/DBOperation.cpp
--     share.
--   Dblayer/Order, Trade, Account, Position, CashFlow, ExecOrder, PositionDetail, CloudOrder,
--     TradeCounter, LastTick, AutoStopLoss, Confirmation, DailyFlag, SettlementSheet, TradeRisk,
--     Investor, Exchange, Broker, Product, Instrument, MarginModel, MarginRate, CommissionModel,
--     CommissionRate: the structs, their columns and the operations on these tables; Fields has
--     the struct and the written columns, Reader the assignments of a row to the struct,
--     Operations one function for each member function. LoginLog and Members have queries on
--     tables that fill no struct, and NewId the number that a new row gets.
--   Pool: MysqlPool of Deli_time_server/Deli_time_server/mysqlPool.cc, each function one hold of
--     the lock on the queue, and the relation Step for the interleavings of the producer, the
--     scanner and the callers; `none` is undefined behaviour. Pool/Config: its loadConfigFile, on
--     the lines of the file.
--   Service: what a request does, behind the parsing of Framing/Header. Service/Gzip is gzip.cc,
--     with zlib as the record Zlib; Service/Database is mysqlConnection.cc, over the Platform;
--     Service/Deal is dealMessage of server.cc, with the connection it borrows from the pool; all
--     in Deli_time_server/Deli_time_server. Service/Result has the outcomes of a run.
--   Quotes: the quote client of quote_client/quote_client. Quotes/Ticks has the pending ticks
--     (client.cc and dealMessage of utils.cc), Window a queue of prices, TradeTime the texts of
--     times, Deal the rounds of dealMessage, Packet the bytes of a login and of a result
--     (codec.cc), Server QuoteServer (server.cc), and Client the configuration and the connection
--     (utils.cc, client.cc). Sequences of events stand for the interleavings of their threads.
--   Tests: runs, and the theorems at concrete inputs, over a server that plays back replies.
--
-- Where a state has an abstract view, a child module has the specification:
-- Quotes/Ticks/Refinement has the pending ticks as one queue.
--
-- State and bounds. An input buffer is the list of its readable bytes, and one call of onMessage
-- gives the messages in order and what stays buffered. Its loop runs on fuel, one more than the
-- length of the buffer: each round takes at least a delimiter or a header off the buffer, and
-- Framing/Delimiter/Stream and Framing/LengthHeader/Stream show that more fuel changes nothing.
-- The delimiter's position is narrowed to an int, so the theorems on that framing are about fewer
-- than 2^31 buffered bytes. A session is the handle (null, live or freed), the count of allocated
-- handles, the login and the server. A pool's state is its queue and counter, and the connections
-- that callers hold; its counter is not initialised by the source, and the theorems take it to
-- start at 0. The idle time is from 0 to 2147483 seconds, so that its product with 1000 is an int,
-- and the clock does not go back. The loop of gzCompress runs on fuel: each round that does not
-- end it takes a byte of the source or writes one, so that the length of the source and the room
-- of the destination, added, are enough, as Gzip/Termination shows. The loop that doubles the
-- destination of an upload runs on fuel of the caller's, and the length of the text is enough. A
-- reader gets what its uninitialised local struct holds as an argument.
--
-- What is assumed. ConversionsRoundTrip: the decimal text of a number is read back. IsProgressing,
-- IsDeflated and IsInflated: zlib's documented behaviour, that deflate takes or writes a byte when
-- it returns Z_OK, that a stream is one that deflate has made of a text, and that inflate gives
-- the text of a stream when there is room for it. KeepsTexts, of Service/Database/Keeping: MySQL's
-- documented REPLACE and SELECT on the table jsonServer, whose key is UserName, with names and
-- texts that need no escape in their quotes. atoi and sscanf read numbers by glibc's strtol,
-- narrowed to an int. Malloc succeeds. The theorems that name a server's answer hold for every
-- server that gives it.
--
-- What is not modelled: char arrays are texts without their capacity, but for those of the packed
-- headers and of the statements of a MysqlConnection; log lines and timings; the two insertions by
-- prepared statements and the administrative calls of the MySQL C API, which only pass on to it;
-- the handle of a MysqlConnection, taken as a live one; double arithmetic and calendar time, which
-- are parameters, and times before 1970; the inside of zlib; threads and the event loop, which are
-- muduo; demonstrations and third-party code.
pub mod Base
pub mod Framing
pub mod Dblayer
pub mod Pool
pub mod Quotes
pub mod Service
pub mod Tests
