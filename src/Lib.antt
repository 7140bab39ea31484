-- ===== src/Lib.antt =====
-- XNS, the eXile Name System: a name registry that is read off Monero transactions.
--
-- The program. `xns claim` pays a number of years for a name: it lets a wallet make an unsigned
-- transaction set, puts a payload of 64 bytes, the name and the owner's key, into the transaction's
-- extra field, and lets the wallet sign and send it. `xns indexer` scans the transfers to the
-- protocol address, puts them into the order of the chain, extracts the payload of each, replays
-- them on a registry, keeps the part that is ten blocks deep in a database, and answers lookups.
--
-- The files, and the code that each is about:
--   Protocol, Protocol/*   pkg/xns/protocol.go: ValidName, EncodeName, DecodeName, BuildPayload,
--                          DecodePayload, DecodeOwnerKey, YearsFromAmount
--   Edwards, Edwards/*     pkg/xns/edwards.go: validOwnerPoint, decodePoint, scalarMult, addPoint
--   Registry, Registry/*   pkg/xns/registry.go: Event, Entry, Registry and Apply, whose branches are
--                          `claim`, `renew` and `refuse`; Ledger is what it promises
--   Extra, Extra/*         pkg/xns/extra.go: ExtractPayloads and readVarint
--   TxSet, TxSet/*         pkg/monero/txset.go: the patch (TxSet), chacha20XOR (Cipher),
--                          moneroSignature (Signature), PatchUnsignedTxSetHex (Seal)
--   Network, Network/*     pkg/xns/network.go and pkg/xns/address.go: the networks, ProtocolAddress
--   Session, Session/*     code that calls wallets, processes and files: results with a trace of calls
--   RpcProcess/*           rpcProcess of pkg/claim/claim.go, which pkg/indexer/indexer.go has too: its
--                          start and stop, and freePort; Phases is the order that they keep
--   Claim, Claim/*         pkg/claim/claim.go: the checks of Run and the amount that is paid (Claim),
--                          the calls (Calls), `run` with its order of calls (Run), and
--                          copyWalletCache (Cache)
--   Store, Store/*         pkg/store/store.go: Snapshot, Save and Load (Store), Open and Close
--                          (Opening); Sql is what SQLite documents of the statements and queries
--   Indexer, Indexer/*     pkg/indexer/indexer.go: sortTransfers (Ordering), scanOnce and payloadForTx
--                          (Scan), handleLookup, scan, scanAndStore and snapshotMatchesChain (Server),
--                          with the data and DecodeExtra of pkg/monero/rpc.go; protocolWallet and
--                          rebuildWallet (Process), Run (Start for the state that it takes over, Run
--                          for what it opens and closes), and the goroutines of scans (Concurrent),
--                          step by step; Reload puts a scan and the store together; Independence,
--                          with Shuffle, is about the order of the wallet's list
--   Rpc, Rpc/*             pkg/monero/rpc.go: the calls of the wallet and of the daemon over an answer
--                          (Rpc), and the clients with their URLs and requests (Clients)
--   Lookup, Lookup/*       pkg/lookup/lookup.go: the request and its answer
--   Command, Command/*     cmd/xns/main.go: the commands and the flags that they require
--   Messages               the text of every error, which events and lookups show
--   Hex, Decimal           what the program uses of encoding/hex, and decimal numbers
--   Common, Common/*       lists, texts, results, maps and bits that the others share
--   Tests, Tests/*         runs of the definitions, and the theorems at concrete inputs
--
-- Conventions. A string or a byte slice is a list of numbers below 256. A function that may fail
-- gives a `Result`: a value, an error, a run-time panic, or `stuck` where a loop on fuel does not
-- end within it. A uint64 is a number with its wrap written out, and the int index of
-- ExtractPayloads is an integer with the wrap of 64 bits. A map is an association list with a key
-- at most once. A state is passed on, as the registry from transfer to transfer and the server
-- from scan to scan. What calls a wallet, a process or the file system (Run of a claim and of the
-- indexer, the opening of the indexer's wallet, rpcProcess, the copy of a wallet's cache) is a
-- `Session`: it gives a result and a trace, in which every call stands with its reply, and a reply
-- may be anything that depends on the trace before it. Log lines are left out, filepath.Join is
-- taken of a path in its shortest form, and a loop over a map goes through its association list.
--
-- Fuel. A search loop that moves on in a list has its length and one more. ExtractPayloads has the
-- same: its index grows by one or more in each round until a sum wraps, and from there on the loop
-- may have no end at all. ChaCha20 has a round for each byte and one more, and takes 64 at a time.
-- protocolWallet calls itself, with fuel for each call: two are enough where a removed file is not
-- there. Signing takes a list of random draws, and is `stuck` where they end before one can be
-- used.
--
-- Parameters. What the wallet and the daemon answer in one scan is a record, `Answers`, with a
-- value or an error for each call, and so are the results of rebuilding the wallet and of saving.
-- Keccak, cn_slow_hash and the scalars of the third-party curve are the record `Crypto`; its
-- hypotheses, the lengths of a key and of a scalar's encoding, stand where they are used. JSON is
-- a parameter, and so is the answer to a request. The database is the record `Sqlite`, and `IsSql`
-- has its laws: statements change the rows of a transaction, a commit keeps them, and queries give
-- the rows of a handle in the order they name, and none of them fails. The library of Monero
-- addresses is the record `Addresses`.
--
-- A scan in `Indexer.Concurrent` is one step where it comes back, and none where it does not; that
-- every scan comes back is not claimed.
--
-- Not modelled: the inside of files, HTTP and JSON; what the schema's text means to SQLite; the
-- times of updates; the timing of the ticker and the HTTP server of the indexer; the parsing of
-- flags and what is printed. That p is a prime and that points form a group is nowhere used, so
-- a sum of points may panic for a denominator without an inverse. The query of a lookup and the
-- text of an error are taken as ASCII where they are trimmed or lowered. Where sort.Slice finds
-- equal transfers, one of its orders is taken. Extra fields of 2 ^ 63 bytes and more are out of
-- reach.
pub mod Common
pub mod Hex
pub mod Decimal
pub mod Messages
pub mod Edwards
pub mod Protocol
pub mod Extra
pub mod Registry
pub mod Claim
pub mod Command
pub mod Indexer
pub mod Lookup
pub mod Network
pub mod Rpc
pub mod RpcProcess
pub mod Session
pub mod Store
pub mod TxSet
pub mod Tests
