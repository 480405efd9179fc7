-- ===== src/Lib.antt =====
-- carbon-c-relay: the core of the relay, which takes metrics in the line format of graphite from its
-- clients, decides by rules where each goes, and keeps it in the queue of a server until it is sent.
--
-- How the parts interact. A worker (dispatcher.c) reads the bytes of a connection.
-- `dispatch_received_metrics` cleans them up into metrics and hands each to `router_route`
-- (router.c). The rules match the metric, may rewrite it, and choose destinations: every server of a
-- cluster, one by a hash, or those that a consistent-hash ring chooses (consistent-hash.c, fnv1a.h).
-- `dispatch_process_dests` offers the metric to each of these by `server_send` (server.c), which
-- puts it in a queue (queue.c), or in that of a server which backs it up, or refuses it for now.
-- `server_queuesend` takes metrics from a queue, sends them over a connection, and puts back what it
-- could not send. A rule may also hand the metric to an aggregator (aggregator.c), which puts its
-- value in a bucket and sends what it computes later. The rings and rules live in the memory of an
-- allocator (allocator.c).
-- Once in a while the collector (collector.c) reads the counters of dispatchers, servers and
-- aggregators and sends lines about them by `server_send`.
--
-- Files:
--   Prelude      shared names, native lists, bytes, integers.
--   Queue        queue.c: struct _queue and every operation. Fifo is the bounded list that it promises
--                to be; Inv, Refine, Window, Batch relate the two.
--   Server       server.c: what others read of struct _server. Server/Send is `server_send` with
--                `server_failed`; Account and Stall are about what it drops and refuses. Server/Conn
--                is a connection with `server_poll`, `sockflush` and `server_queuesend`, which sends a
--                batch from a queue; Stream, Rounds, Back, Last, Returns and Delivery are
--                about the bytes and metrics.
--                Server/Reader is `server_queueread`; Threshold, Valid and Spared are about it.
--                Server/Thread is the loop of `server_queuereader`; Ends is about it.
--   Hash         fnv1a.h: both hashes with their wrap-around.
--   Ring         consistent-hash.c: keys, positions and comparators. Ring/Build is `ch_new` and
--                `ch_addnode`, Ring/Get is `ch_get_nodes`, `ch_gethashpos` and `jump_bucketpos`.
--                Sorted, Search, Owner, Fetch, Nodes, Jump and Position are about them.
--   Allocator    allocator.c: `ra_new` and `ra_malloc`; Fresh is about the blocks handed out.
--   Dispatcher   dispatcher.c: `dispatch_received_metrics`, one function for each branch of its loop.
--                Clean, Chunk and Resume are about it. Dispatcher/Dests is `dispatch_process_dests`,
--                Dispatcher/Conn is `dispatch_connection`; Conn/Kept is about it.
--   Router       router.c and cluster.h: rules, clusters, `router_metric_matches`. Router/Rewrite is
--                `router_rewrite_metric`, Router/Send the switch over the type of a cluster, and
--                Router/Route the loops of `router_route_intern`, and `router_route`; Slots, Depth and
--                Ends are about them. Router/Classify is `determine_if_regex`, which finds patterns
--                that need no regular expression; Literal, Parse and Sound are about it.
--                Router/Address is what `router_validate_address` reads of a text.
--                Router/Optimise is `router_optimise`; Regroup, Added, Found, Steps, Emit and
--                Chosen are about it.
--   Aggregator   aggregator.c: buckets of values and `aggregator_putmetric`; Slots and Values are
--                about them. Aggregator/Expire is `write_metric` and a pass of `aggregator_expire`,
--                Rank and Rotate are about it, and Counters are the sums that are reported.
--   Collector    collector.c: counters, their getters and the lines about them. Collector/Cycle is a
--                cycle of `collector_runner`; Sums, Handled, Served, Conns, Parts, Totals, Failures
--                and Since are about it. Collector/Writer is a round of `collector_writer`.
--
-- State. A struct is a record of the fields that the modelled code uses, and an operation returns
-- the record it leaves. A pointer to a metric is an option, `none` for NULL. Pointers into a buffer
-- are offsets. The buffers of the dispatcher and of the rewriting are lists, last byte first.
-- Numbers are natural numbers with the wrap-around of the machine's types written out where it can
-- happen. Queues that servers share are told apart by addresses.
--
-- Bounds and fuel. The binary search runs on as much fuel as the ring has entries, and one; the walk
-- round the ring on one more round than entries; the jump hash on one round more than buckets; the
-- loop of `queue_destroy` on one round more than entries; `ra_malloc` on one round for each region
-- and one for a new one. The theorems on these show that a result is returned. `router_route_intern`
-- runs on fuel for the depth of groups and stubs; as much as the rules nest deep is enough. The loop
-- of `server_queuereader` runs on one round for each round of the thread.
--
-- Parameters. Regular expressions, md5 (md5.c is a copy of another project's file), strtol, qsort,
-- the double arithmetic of the jump hash, doubles with atof, atoll and printf in the aggregator,
-- what poll(2), write(2), `server_connect` and the clock answer, the timeout of a shutdown, the time stamp of a syslog line,
-- the results of malloc and of rand2, the double arithmetic on the use of a queue in the collector,
-- what the stream of a connection returns, what lies in memory that was never written, and, in the
-- router, the choice of a ring.
--
-- Not modelled: sockets, compressed and encrypted streams, libevent callbacks (I/O); most of the
-- reading and printing of a configuration; what is common to several threads;
-- server_connect; the timing of the collector; the freeing of aggregators; the link from the router to the
-- aggregator, of which the router records the calls; ra_free and ra_strdup. Texts of destinations
-- are not cut at METRIC_BUFSIZ.
pub mod Prelude
pub mod Queue
pub mod Server
pub mod Allocator
pub mod Collector
pub mod Aggregator
pub mod Hash
pub mod Ring
pub mod Dispatcher
pub mod Router
