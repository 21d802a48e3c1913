-- ===== src/Lib.antt =====
-- A verification library for TurtleCoin v2: blocks, transactions, their storage and their validation.
--
-- Parts of the program and the files that model them (paths from the repository's root):
-- - Errors (src/errors/errors.h): an Error is success or a code. Config: constants of include/config.h.
-- - Serial: the crypto library's serializer_t and deserializer_t, as a parameter `Wire` with one call of
--   each name; a reader is a function from the bytes left to a value and the bytes behind it, and none is
--   an exception. Serial.Laws: reading undoes writing, and how that composes.
-- - Crypto: the crypto library's functions, as a parameter. Keys, hashes and signatures are numbers.
-- - Chain.Parts (include/blockchain/base_types.h): the structures that transactions inherit from.
-- - Chain.UserChecks, Chain.Normal, Chain.Stake, Chain.RecallStake, each with Uncommitted
--   (include/blockchain/transaction_normal.h, transaction_stake.h, transaction_recall_stake.h): the
--   transactions of users, before and after they are committed. Chain.Mining is their `mine`.
-- - Chain.Genesis, Chain.Staker, Chain.StakeRefund: the transactions of the system, from the files named
--   after them. Chain.Transaction (include/types.h): the variant of all six.
-- - Chain.Block (include/blockchain/block.h): blocks, their digests and signatures. std::set and
--   std::map are ascending lists (Base.Ordered).
-- - Database (src/database/db_lmdb.h, src/database/db_lmdb.cpp): LMDB is a parameter, a chain of writes
--   is a function on transactions, and MDB_CHECK_TXN_EXPAND is the function `retry`.
-- - Database.Named: the methods of an LMDBDatabase that run in a transaction of their own.
--   Database.Environment: LMDB and LMDBTransaction as a machine of states, with the count of open
--   transactions that the resizing of the map looks at; the results of the C library are arguments.
-- - Storage (src/core/blockchain_storage.cpp): put_block and the reads, over Database. Storage.Removal:
--   get_block, del_block and rewind. Storage.Seeking: the reads by timestamp and at random, over the
--   cursors of Database.Cursor.
-- - Validator (src/core/transaction_validator.cpp): check and validate of both variants, over Storage,
--   Fees (src/common/network_fees.cpp) and Address (src/common/address.cpp).
-- - Staking (src/core/staking_engine.cpp, include/staking): the records and the engine, over Database.
-- - Network (include/network): IP addresses, peers and packets, with the choice among the packets by
--   type. The IPv6 parser is a parameter.
-- - P2p (src/p2p): the peer list (P2p.PeerDb) over a table of peers, the node's packet handlers
--   (P2p.Node), its outgoing connections (P2p.Connections) and timed broadcasts (P2p.Broadcasts). Clocks and shuffles are arguments,
--   sockets are parameters, and what is sent is a list.
-- - Tools (include/tools): the thread-safe containers. A method holds its lock for its whole body, so a
--   container is a state that methods change one after the other.
-- - Tests: concrete instances of the parameters, and the theorems at concrete inputs.
--
-- How they interact: the validator calls check_construction of a transaction, asks the fees for the
-- amount due, and asks the storage for key images and ring members; put_block writes what these
-- questions read. Validator.DoubleSpend joins the two. The packet handlers add to the peer list, keep the
-- set of identities with a completed handshake, and queue data packets; P2p.Node.Inbox follows the three
-- through any sequence of messages. The peer list stands on the interface PeerTable, which
-- P2p.PeerDb.Stored fills with the methods of LMDBDatabase over LMDB.
--
-- Fuel: `retry` takes the number of rounds (a write of the peer list that needs more changes
-- nothing), and Storage.Total and Database.Retry say when it is enough;
-- `mine_loop` takes 2^64 rounds, one for each nonce, and never runs out. get_random_outputs takes the
-- random hashes that it draws; Storage.Seeking.Enough is about which are enough.
--
-- Not modelled: JSON and printing; the mutex of put_block (one writer at a time is assumed); the
-- positions of LMDB's cursors, its flags and the registries of instances; threads, timers and sockets;
-- networking, consoles and logs. Operations on floats and doubles are a parameter.
-- Where reading all peers throws, the table's list of them is empty; P2p.PeerDb.Listing is about when
-- that cannot be.
pub mod Base
pub mod Errors
pub mod Config
pub mod Serial
pub mod Crypto
pub mod Chain
pub mod Database
pub mod Storage
pub mod Fees
pub mod Address
pub mod Validator
pub mod Network
pub mod Tools
pub mod P2p
pub mod Staking
pub mod Tests
