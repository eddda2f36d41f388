-- ===== src/Lib.antt =====
-- A verification library for fdlvling, a driver that levels the wear of a flash drive. The driver
-- stands above the drive and gives its clients a virtual unit. It collects written sectors in a
-- cache of 504 sectors, purges the cache in order to one chunk of 2^18 sectors after the other, and
-- keeps in a map where each block of 8 sectors lies.
--
-- Parts, and the files that model them:
--   Checksum   lib/common.c: ProduceChecksum128 and VerifyChecksum128 on the words of a buffer.
--   Gate       driver/vgate.c: the sections under GlobalSpinLock. LevelingDispatch is `dispatch`,
--              LevelingThreadCompletion `thread_completion`, LevelingFlushDpc `flush_dpc`,
--              LevelingCleanAfterModeChanged `clean_one` and `clean_loop`; `Reach` is any
--              interleaving of these sections and of changes of the mode.
--   Store      driver/vscsi.h, driver/vscsi.c: the context as the record Store, GetCachedPos, the
--              filling of the cache; `view` is what a client sees in a sector.
--   WritePath  driver/vscsi.c: the step of ExecuteWriteHandler to the next chunk (`switch_chunk`), and
--              its round from the search in the cache on (`write_place`).
--   WriteRequest  driver/vscsi.c: ExecuteWriteHandler as a whole. `write_round` is its loop's body,
--              `execute_write_handler` a call, `write_step` a round with the completion of the
--              request to the drive that it waits for, `failed` that completion where it fails;
--              `Session` is a run of writes and reads of clients, `Sane` what holds between their
--              rounds, and `Allowed` what they need of the drive: SCN does not wrap, the chunk that
--              FindNextChunk chooses for a new chunk is not fuller than the purges can relocate, and
--              CHUNK_CTL of the next chunk names the blocks in use there. Remaining, Joining, Enough
--              and Emptied count the blocks that are left in the next chunk.
--   ReadPath   driver/vscsi.c: ExecuteReadHandler and ExecuteReadCompletion.
--   Chunk      driver/vscsi.c: UpdateMap, the purges of the cache and of the chunk, FindNextChunk.
--   Flush      driver/vflush.c: ExecuteFlush, ExecuteFlushHandler, and the completions that run the
--              handler again.
--   Relocation driver/vrelocation.c: the blocks of the next chunk that join the cache.
--   Recovery   driver/recovery.c: DoRecovery1 is `do_recovery`, its loops `scan_chunks` and `replay`.
--   Config     driver/config.c: GetNewCCN, GetLevelingConfig, SetLevelingConfig, the tests of
--              LevelingControl.
--   Registry   driver/registry.c: PatternMatch, the query routines, CheckDeviceConfig.
--   Trace      driver/trace.c: the ring of characters, trace_vprintf, the lines of the trace.
--   Transfer   driver/vreq.c: ScsiCallRW with its handler, and ScsiCallCompletion.
--   Device     driver/vltl.c: the modes, VltlDispatchScsi, VltlDispatchScsiTURCompletion, with
--              FreeLevelingCtx (driver/vgate.c) where it does not wait;
--              driver/vcheck.c: CheckCompletion2.
--   Commands   driver/vgate.c: GetDataSystemAddress, ExecuteReadCapacity, ExecuteModeSense.
--   Base       shared names, the Boolean tests, lemmas on lists, and the machine words.
-- The gate decides which thread serves a request; the paths change the store on behalf of the thread;
-- the flush and the write path purge the cache through Chunk, and Recovery reads back what they
-- wrote, into the context that write requests go on from. Config formats the drive
-- that Recovery finds.
--
-- Machine words wrap (add32, sub32, mul32, inc8, dec8). A sector's contents are one number, and the
-- drive is a function from sector numbers to contents. The layout of the control structures on the
-- drive is a parameter. Loops over arrays run on the number of rounds left; the read loop, the
-- flush and the cleaning take fuel: a read of LEN sectors needs LEN + 1 rounds, a call of
-- ExecuteWriteHandler 505 * (LEN + 1), since a round that transfers nothing lets the cache of 504
-- sectors grow, a flush four, the cleaning one more than requests are queued, the second loop of
-- the recovery 512, the search for a CCN one more than there are chunks, and theorems below say
-- that this is enough.
--
-- Not modelled: the thread that starts a recovery, the device's other
-- dispatch functions, names and tools, the cancelling of the timer by a purge, the failing allocation
-- of GetNewCCN, and the operating system's own functions.
pub mod Base
pub mod Checksum
pub mod Gate
pub mod Store
pub mod WritePath
pub mod ReadPath
pub mod Chunk
pub mod Flush
pub mod Recovery
pub mod Trace
pub mod Config
pub mod Registry
pub mod WriteRequest
pub mod Commands
pub mod Relocation
pub mod Transfer
pub mod Device
