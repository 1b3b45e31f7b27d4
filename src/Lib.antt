-- ===== src/Lib.antt =====
-- A verification library for weakforced: the address matching, the black- and whitelists, the
-- windowed statistics and the replication of the daemon, modelled from its C++ code.
--
-- The program's parts. wforce decides whether a login may go on. It keeps a blacklist and a whitelist
-- (wforce/blackwhitelist.cc), each with a list of addresses and networks, which a group of netmasks
-- (common/iputils.hh) answers for, and lists of logins, of JA3 hashes and of pairs with an address.
-- Entries expire, can be stored in Redis, and are sent to the siblings, which apply them
-- (wforce/replication_bl.cc, wforce/replication_wl.cc). Statistics of logins are kept in windows of
-- time, by field and key (common/twmap.hh). A wrapper shares the keys out to several databases and
-- replicates what changes them (wforce/twmap-wrapper.cc, wforce/replication_sdb.cc). An operation is
-- serialized (wforce/replication.cc), encrypted, queued for each sibling and sent by its thread
-- (wforce/wforce-sibling.cc), and read, decrypted and queued again by the receiver
-- (wforce/wforce-replication.cc), whose workers apply it; replfwd forwards it instead
-- (wforce/replfwd-replication.cc).
--
-- The files.
--   Prelude      Boolean tests, lists, texts, integers and what the other files share.
--   Misc         splitField, pdns_stou and makeIPv6sockaddr of common/misc.cc, and makeComboAddress.
--   Net/Address  ComboAddress (common/iputils.hh, common/iputils.cc).
--   Net/Mask     Netmask (common/iputils.hh).
--   Net/Tree     NetmaskTree: insert, lookup and erase, which walk a binary tree (Net/Tree/Walks).
--                Its entries as a map are in Net/Tree/Laws, Longest, Compact, Entries and Invariant.
--   Net/Prefix   Netmask::match and the walk of the tree, for IPv4.
--   Net/Group    NetmaskGroup: addMask, deleteMask, match and lookup.
--   Blwl/Table   blackwhitelist_t and the methods on one list (_addEntry, _deleteEntry and so on).
--   Blwl/Act     BlackWhiteListDB and the monad of its methods: a method changes the state, emits
--                events in order (logging, Redis commands, replication, hooks, counters), and returns
--                or throws.
--   Blwl/Redis   checkSetupContext, addPersistEntry, deletePersistEntry and the names of the lists.
--   Blwl/Lists   addEntryInternal, deleteEntryInternal and _purgeEntries.
--   Blwl/Api     the public methods by kind of entry.
--   Blwl/Load    loadPersistEntries, and applyOperation of the two replication files.
--   Blwl/Keys, Expiry, Returns, Purge, Contents, Changes, Deletes, Distinct, Reachable, Addresses, Quiet,
--                Outbound and Reload are about these methods.
--   Stats/Member TWStatsMember and its three classes; Stats/Entry and Stats/Reads
--                TWStatsEntry (common/twmap.hh).
--   Stats/Windows, Sums, Listing and Saved are about the windows, their sum, what get_windows lists and
--                the saved form.
--   Stats/Whole  is about the indices into the windows; Whole/Reading has the methods that read.
--   Stats/Db     TWStatsDB (common/twmap.hh): Db has the methods that write and the expiry, Db/Queries
--                those that read, reset and save, Db/Calls the calls as data and the states they lead
--                to. Db/Invariant is the interface of an invariant, which Db/Methods and Db/Runs carry
--                through the methods, and Db/Reached and Db/Sound fill. Db/Tracker, Tracked, Expire and
--                Frame are about the key tracker, the expiry, and what a write changes.
--   Stats/Wrapper TWStringStatsDBWrapper, with its reads in Wrapper/Queries; Wrapper/Operation has the
--                operations that it replicates.
--                Wrapper/Agreement and Wrapper/Silent are about applying them.
--   Replication/Crypto, Transport, Sibling, Siblings, Message
--                nonces and packets (common/sodcrypto.hh, common/sodcrypto.cc), the receiver, a sibling,
--                the list of siblings, and the operations as bytes.
--   Replication/Framing, Delivery, Bounds, Nonces, Peers, Queue and Reading are about these.
--   Tests        runs on concrete data.
--
-- Conventions. A function of the model has the name of the C++ one in snake case; an overload has a
-- word more. Bytes and bits are natural numbers; 32-bit arithmetic is written with its modulus, and an
-- int of the statistics is its 32-bit pattern. Loops are structural recursion: that over a SCAN reads
-- the list of the server's replies, that of expireEntries counts down, and that of send has two
-- attempts. Only the loop over a connection runs on fuel, which is the number of bytes: each round takes
-- at least two, and more fuel than bytes changes nothing (parse_tcp-fuel of Replication/Framing). What
-- would be undefined behaviour is a result of its own (`none`, `undefined`, `outside_address`,
-- `outside_bits` or `use_after_free`), with two exceptions. In the methods of Netmask the bytes that they
-- read behind an address, when a text gives it more bits than it has or 128 of them, count as 0. An
-- addition or subtraction of ints of the statistics that overflows is undefined in C++ and wraps around
-- here. The sizes of a database are given as the signed ints of its
-- constructor: a database with a negative size, or whose period (the product of its sizes) does not fit
-- an int, is `none` and outside the model.
--
-- Parameters. `Resolver` has the calls of libc and of the standard library on texts of addresses and
-- numbers, `Env` what a method of the lists meets (the clock, the hooks, Redis as hiredis presents it),
-- `Sketches` the HyperLogLog and count-min libraries, `Host` the hash of the keys, `Cipher`
-- ChaCha20-Poly1305, `Protobuf` the bytes of messages, `Names` the lookup of hosts and base64, and
-- `Network` the sockets. A theorem that relies on one of them says so.
--
-- Not modelled: locks and threads (each method runs as a whole), the wording of most log messages, the
-- copying of trees, the listening sockets, the variant of the encryption for libsodium, the metrics, and
-- the web, Lua and configuration layers. An iterator into the key tracker is modelled by its key. The
-- time-to-live that Redis itself enforces is not modelled either.
pub mod Prelude
pub mod Misc
pub mod Net
pub mod Blwl
pub mod Stats
pub mod Replication
pub mod Tests
