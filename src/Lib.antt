-- ===== src/Lib.antt =====
-- The mod manager of Wargame: Red Dragon, as far as it decides without looking at a disk, a network
-- or a window.
--
-- The program shares mods between players over BitTorrent. A publisher signs an announce of each
-- release; peers pass announces on by gossip, and each receiver keeps the newest announce of each
-- mod whose signature verifies under a registered key. A release is a manifest of files in
-- content-defined chunks; a plan says which chunks are at hand and which are fetched, one fetch at
-- a time; the load order of installed mods is a text file.
--
-- The parts and their files:
-- * Announce/Budget models src/downloader/announce/PeerAnnounceBudget: `refill`, `consume`,
--   `penalise` and the others carry the names of the class's methods, the record its fields.
-- * Announce/Wants models OutstandingWantTracker in the same folder.
-- * Announce/Summary, Announce/Wire and Announce/Codec model AnnounceSummary.h, SignedAnnounce.h,
--   AnnounceWireCodec and src/manager/announce/AnnounceCodec: byte strings are lists of numbers, and
--   a record of 220 bytes or a message is built and read at the source's offsets.
-- * Announce/Receiver models src/manager/announce/AnnounceReceiver over the interface `IKeyRegistry`,
--   which Trust/Registry fills after src/manager/trust/KeyRegistry. libsodium is the parameter
--   `SignatureCheck`.
-- * Announce/Exchange models src/downloader/announce/AnnounceExchange, the state that all
--   connections share, over the interface `IAnnounces`; Announce/Exchange/Serving fills it with the
--   receiver. Each method holds a lock for its whole body, so that any interleaving of the
--   connections is a list of calls (`Call`, `run`).
-- * Announce/Connection models AnnounceGossipPeerPlugin in the same folder, one peer's connection:
--   `on_handshake`, `on_extended` and `tick` are what libtorrent calls, `event` any of the three;
--   what the plugin asks of libtorrent is kept in the fields `sent` and `disconnected`.
--   Announce/Network puts all connections around the exchange, as a step relation.
-- * Domain holds src/domain/types/identity/FixedBytes.h, src/domain/rules/ModNameRule.cpp, and
--   ModManifest and ChunkFileNaming.h of src/domain/types/content.
-- * Chunk models src/domain/types/content/ChunkSizes, src/downloader/chunk/FastCdcChunker, and, in
--   Chunk/Lister, src/manager/manifest/FileChunkLister with the test of the layout of chunks of
--   ManifestCodec in the same folder.
-- * Install models src/domain/types/distribution/InstallPlan and, of src/manager/install,
--   ManifestDiffer, InstalledContentAuditor (Auditor), FetchPlanner and StagedFileSeeder (StagedFiles);
--   the file system and the hash are parameters.
-- * Order models src/domain/types/order and the text of src/manager/order/OrderFileGateway.
-- * Update models DownloadHostPolicy and VersionNumber of src/manager/update.
-- * Storage models four classes of src/downloader/storage: StorageJobQueue, the jobs and the worker
--   that runs them, one step for each turn with the lock; OpenFileCache, the files that are held
--   open, over the interface `IFiles` of the calls of Windows; ChunkLocator, where chunks lie and
--   go; and ChunkRangeIo, which reads and writes a torrent's blocks there, over the interface
--   `IRanges`, which the open files fill, and libtorrent's layout of a torrent (`IFileStorage`).
-- * Payload models src/manager/payload/PayloadPathPolicy.
-- * Transfer models src/downloader/transfer/FetchState and SeedRoster: the one fetch under way and
--   the seeds.
-- * Common holds the tests on numbers, lists, byte strings, `std::expected` as `Result` and
--   `std::map` as the sorted list `Table`. Tests applies the theorems to concrete data.
--
-- Counters of 64 and 32 bits wrap as in the source. Clock times are natural numbers of nanoseconds
-- that do not wrap. Five loops run on fuel: `Split` of Chunk on as much as there are octets, which
-- is enough as each turn takes one at least; the loops of `Read` and `Write` of OpenFileCache on as
-- much as there are bytes to move, for the same reason; the printing of a number of a version on
-- ten digits, which 32 bits do not exceed; and the count of trailing zeros on 64, the bits of the
-- number.
--
-- Not modelled: libtorrent, libsodium, BLAKE3 and the file system, which are parameters where they
-- are used; the windows of src/gui and the composition of src/app; and the parts of src/manager and
-- src/downloader that mostly call these (publishing, baselines, profiles, extensions, mirrors and
-- the torrent session).
pub mod Common
pub mod Domain
pub mod Trust
pub mod Announce
pub mod Chunk
pub mod Transfer
pub mod Install
pub mod Order
pub mod Payload
pub mod Storage
pub mod Update
pub mod Tests
