-- ===== src/Lib.antt =====
-- The indexer of Solana swaps: the decoders, the ingestor and what carries its messages.
--
-- The program reads a stream of updates of the Solana chain (transactions, block metadata, accounts,
-- slot statuses), decodes the swaps of three exchanges from the token balances of a transaction, and
-- publishes each swap twice: as provisional when it is seen, and as final or undone when its slot is
-- finalized or dead. Two sinks carry the messages to ClickHouse and Parquet, a bridge copies them to
-- another stream under other subjects, an orchestrator cuts a span of past slots into ranges for a
-- backfill, and an HTTP interface serves candles.
--
-- - Prelude: shared tests, results, lists, bytes, words of 64 bits, association lists for Go's maps.
-- - Yellowstone, Dex: the messages that come in, and the canonical ones of gen/go/dex/sol/v1.
-- - Canonical/Pair, Canonical/Metadata: decoder/common/pair.go (ResolvePair, with the package's maps
--   as a registry) and mint_metadata.go (the provider, DetermineBaseQuote). Amounts: fixed_point.go,
--   the scaling of amounts over any type of floats.
-- - Raydium/Instruction, Raydium/Swap: decoder/raydium (ParseSwapInstruction, ParseSwapEvent,
--   NormalizeToCanonicalPair, CalculatePrice). Differences of int64 are 64-bit patterns.
-- - Meteora: decoder/meteora (balances of an account, log lines, DecodeSwapEvent, ToProto).
-- - Orca: decoder/orca_whirlpool. Instruction holds the instruction, the amounts and the fees, Swap
--   the decoder and SqrtPriceQ64ToFloat of decoder/common/fixed_point.go, Proto the conversion
--   ToProto.
-- - SlotCache: ingestor/common/slot_cache.go. The loop of GetRange runs on fuel: one unit for each
--   slot of the range and one for the last test are enough below the largest uint64.
-- - TxMeta: ingestor/common/txmeta.go. Pools: ingestor/internal/pools.
-- - SwapDecoder: ingestor/decoder/decoder.go. State holds the indexed pools and fees (HandleAccount,
--   HandleBlockMeta), Vaults the balances and resolvePool, Swaps the three builders, Decode the loop
--   of DecodeTransaction.
-- - Processor: ingestor/geyser/processor.go. State holds the pending swaps, the block heads, the
--   metrics and the publisher's log; Slots settles the pending swaps of a slot, Updates handles an
--   update. Settled is about what a slot's end publishes, Safety about all runs.
-- - GeyserService: ingestor/geyser/service.go, Run with one client and its metrics' server. Its
--   Settings, and those of HeliusClient, Publisher, Bridge, ClickHouse and Parquet, are the
--   configurations of their packages; Environment is what these read of the environment, with
--   strconv.Atoi and the durations.
-- - Failover: ingestor/geyser/failover_service.go, two clients that take turns in feeding the
--   processor. An error is a value of RunError, and what ctx.Err() answers stands in a session.
-- - Publisher: sinks/nats/publisher.go, the subjects and the message ids of what the processor
--   publishes; Publisher/Outputs has those of pool snapshots and candles, and publish;
--   Publisher/Routes is what the sinks' handleMessage does under its subjects.
-- - Bridge: bridge/mapping.go, the mapper of subjects, and Bridge/Service: bridge/service.go, forward
--   and consumeLoop over the rounds that it has made. Bridge/Settings has the loader of rules, New and
--   its options, Bridge/Start the start of Run.
-- - Stream: ingestor/geyser/client.go and ingestor/helius/stream_client.go, the loops that read a
--   subscription, subscribe again from the last slot, and send what arrives. Geyser and Helius hold
--   the two clients, over the log of Stream/Log.
-- - HeliusClient: ingestor/helius/client.go, the client that answers decoded events in place of
--   updates; HeliusClient/Agrees compares it with the processor.
-- - Backfill: backfill/orchestrator, the producer that slices a span of slots into ranges. Its loop
--   runs on fuel: one unit for each slot of the span and one more are enough. Backfill/Workers is Run
--   as steps of the producer, of the workers and of the context, in every interleaving.
-- - Candles: cmd/candles/main.go, the bridge of candles from messages to ClickHouse and Parquet;
--   Candles/Loop is its main loop.
-- - Replay: cmd/tools/sinkreplay/main.go, the messages that the tool publishes for a fixture.
-- - Http: api/http, the handler of candles and its cache over a store of texts.
-- - ClickHouse/Writer: sinks/clickhouse/writer.go, the batches and their inserts. ClickHouse/Connect
--   is connectWithRetry and parseDSN; its loop has one round for each dial. ClickHouse/Service:
--   sinks/clickhouse/service.go, the processor of messages and the rounds of Run. Loops is the
--   buffered loop of batches that trades and candles share.
-- - Parquet: sinks/parquet/writer.go. Keys holds bucketKey and splitBucketKey, Writer AppendCandle and
--   the flush of the buckets, Service sinks/parquet/service.go.
-- - Tests: runs that can be followed in the source.
--
-- Parameters: the base58 encoder, the order in which Go visits a map, floats, whether the publisher
-- accepts a publication, what the bridge's streams answer, what the failover's clients deliver, which
-- inserts the database takes, which uploads succeed, unmarshalling, marshalling, reading files, YAML,
-- url.Parse, sort.Slice, the clock, when a context is done, what a stream delivers, and which error a
-- group of goroutines keeps. Strings that the code only compares are native strings, and strings that
-- it parses are lists of bytes. Nil pointers are options, an error is a value of a data type with one
-- constructor for each message.
--
-- Not modelled: how the network clients connect and authenticate; the router and the constant handlers
-- of the HTTP interface, the lifetime of its cache's entries; the other commands, which call databases
-- and brokers; the generated marshalling; the tick conversions, which are floating point; log output.
-- Metrics are the counters of the processor, the bridge and the failover.
pub mod Prelude
pub mod SlotCache
pub mod Canonical
pub mod Amounts
pub mod Raydium
pub mod Dex
pub mod Environment
pub mod Http
pub mod Replay
pub mod Yellowstone
pub mod Meteora
pub mod Pools
pub mod SwapDecoder
pub mod TxMeta
pub mod Processor
pub mod Publisher
pub mod Backfill
pub mod Bridge
pub mod Failover
pub mod GeyserService
pub mod Stream
pub mod HeliusClient
pub mod Orca
pub mod ClickHouse
pub mod Parquet
pub mod Candles
pub mod Tests
