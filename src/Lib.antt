-- ===== src/Lib.antt =====
-- A market data engine for the NYSE Pillar integrated feed: lines of a file become public messages,
-- which a callback takes one after the other, to rebuild an order book and its statistics.
--
-- The parts and the files that model them, with paths from the root of the repository:
-- * include/message.hpp, the public messages: Message. A message is a constructor for its tag with the
--   record of its payload, where the source has a tag and a pointer to be cast by it.
-- * src/model/order_book.cpp and include/model/order_book.hpp, `OrderBook`: OrderBook. OrderBook/Book has
--   the state and the private helpers, OrderBook/Handlers one function for each `Apply…` method,
--   OrderBook/Dispatch `OnMessage` and the accessors. Levels has the operations on the map of price levels
--   of one side. The other files of OrderBook prove: Consistency, Orders and Invariant the invariant of
--   the displayed book; Feed and Top what follows for a feed; Parts, Trades and Statistics the trade log;
--   Refresh, Halt and Undo what their names say.
-- * src/model/trade_ledger.cpp and include/model/trade_ledger.hpp, `TradeLedger`: TradeLedger, with the
--   statistics of a log in Stats. `OrderBook` has a log of its own with the same records, and the two
--   share Stats here, where the source repeats the code.
-- * include/schema/parse.hpp, `schema::Parser`: Sequence, for `RecordSequence` and its counters.
-- * include/queue.hpp, `MessageQueue`: Queue.
-- * src/engine.cpp and include/engine.hpp, `Engine`: Engine/Lifetime is the whole life of one, as a step
--   relation on the ingest thread, the egress thread and the owner, who may call `Join` and who runs
--   `~Engine`: the file opens or does not, and a step of the ingest thread is what it does between two
--   reads of what another thread writes. Engine/Lifetime/Orderly and Conserved are the invariants,
--   Outcome and Progress what follows. Engine has the parts, and a coarser step for each round of a loop;
--   Engine/Steps has the interleavings of these rounds with `Join`, for the constructor on a vector and
--   without the destructor. Engine/Exchange is shared. The parser is the record `LineParser`: what it does
--   to its state on a line, the message that it emits, and the law that it reports no error exactly where
--   it emits.
-- * include/schema/nyse/csv.hpp, `CSVReader` and the values of fields: Csv and Csv/Fields; Csv/Cache
--   and Csv/Split compare the reader with a line split at its commas.
-- * include/schema/nyse/nyse_types.hpp, the structures of a line: Wire, with a record and a constructor for
--   each `DEFINE_STRUCT`.
-- * include/schema/nyse/parse.hpp, `schema::nyse::Parser`: NyseParser, with the public message of each type in
--   NyseParser/Public. NyseParser/Emission makes it the `LineParser` of the engine; NyseParser/Lines and Bounds
--   say what the lines of a file leave in the parser and in the messages.
-- * include/schema/nyse/reference_types.hpp, the lines of the reference files: Wire/Reference.
-- * examples/stock-summary/main.cpp and examples/bbo-validation/main.cpp: Examples/Loaders has the loaders of
--   the reference files, and its child Events what a trades file says without a ledger. Examples/StockSummary
--   and Examples/BboValidation have the comparison of each program and the callback of the second, and their
--   children Main the programs, with Examples/Program for what they do alike. A path has nothing, a file
--   that cannot be opened, or one whose lines can be read.
-- * Pipeline has no code of its own: it puts the engine, the parser and the order book together.
-- * Prelude, Map and Double are shared: tests, lists and words; `std::unordered_map`; `double`.
--
-- How the parts meet: a parser calls `Emit`, which pushes onto the queue (`emit`); the egress loop pops and
-- hands each message to the callback (`deliver`); the callback of the programs in examples/ calls
-- `OrderBook::OnMessage` (`on_message`), one message after the other (`replay`).
--
-- Representations. A `double` is a type with `<`; the laws of a strict weak order are a named hypothesis,
-- which finite prices meet and whole ticks meet in the tests. A `std::map` is the list of its entries in
-- key order, and an `std::unordered_map` an association list, whose order nothing reads. Unsigned words
-- wrap around at 2^64; the signed sums of the ledger are integers, so their overflow, undefined in the
-- source, reads as wrap-around. An index into a log that is out of range, undefined in the source, reads as
-- a live trade of volume 0. Every loop is by recursion on its list but the search of
-- `CSVReader::GetField`, which has one round of fuel for each comma up to the field: a round that does not
-- end the loop finds a comma. `std::from_chars` is a parameter (`StdNumbers`), of which at most `IsBounded`
-- is assumed: an unsigned word that does not fit is out of range. <cmath> is the parameter `StdMath`, with no
-- law.
--
-- In Engine/Steps an ingest step joins the call of the parser with its push and with the counters that
-- follow, and in both models an egress step the pop with the callback and its counter: no other thread
-- writes what lies between. In Engine/Lifetime the read of a stop request is one step with what it decides
-- at the head of a loop: a line taken or the queue closed; the parser's push is one step, and its counters
-- another.
--
-- Not modelled: in examples/ the arguments, and what is printed but for its numbers; exceptions of the
-- standard library such as running out of memory, logging, and elapsed time.
pub mod Prelude
pub mod Double
pub mod Map
pub mod Levels
pub mod Message
pub mod Stats
pub mod TradeLedger
pub mod OrderBook
pub mod Sequence
pub mod Csv
pub mod Wire
pub mod NyseParser
pub mod Queue
pub mod Engine
pub mod Pipeline
pub mod Examples
