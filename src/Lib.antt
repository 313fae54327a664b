-- ===== src/Lib.antt =====
-- The checks behind the NFS verification suite: how its cases decide what happened on a cluster.
--
-- The suite injects faults into an NFS server on Kubernetes, runs workloads against the share, and reads
-- text back from pods and nodes. What it asserts is computed from that text. The development models that
-- computing part as pure functions over the text and over what the API returned, and proves what each
-- function promises.
--
-- The parts, and the code they stand for:
--   Prelude, Prelude/*   lists, Go's int and int64 as integers in two parts, sorting, the loop that keeps
--                        the best member. `sort.Ints` is an insertion sort here.
--   Text, Text/*         Go's strings and strconv. A string is a list of code points.
--   Clock                time.Time as nanoseconds since 1970 and time.Duration as an int64; `Sub` saturates.
--   Load, Load/*         pkg/framework/load.go: parseLoadLog, Committed, Attempted, CommittedBefore,
--                        FirstSuccessAfter, LastRecord, LastCommitted, LongestGap, StallAfter.
--   Sweep, Sweep/*       pkg/framework/sweep.go: ParseRecordSweep, Count, Indices, FirstWrong,
--                        VerifyRecords. It takes its script from Shell and its records' size from Load.
--   Ranges, Ranges/*     pkg/framework/ranges.go: CompactRanges.
--   LostLocks, ...       pkg/framework/lostlocks.go: NewLostLocks. The pattern lostLocksPattern is a
--                        matcher written for it.
--   Shell, Shell/*       pkg/framework/scripts.go (RunScript), exec.go (CheckScriptID, CheckObjectName),
--                        nodeagent.go (shellQuote), framework.go (Name). Shell/Quoting has an independent
--                        reader of words after POSIX.
--   Poll, Poll/*         pkg/framework/wait.go: Poll and Measure, over a list of rounds. A round says what
--                        the function returned and which channel woke the loop. A list that is used up is a
--                        loop that still runs.
--   Slo, Slo/*           pkg/slo/slo.go: the profiles and the bounds.
--   Chaos, Chaos/*       pkg/chaos/chaos.go, with PodReady and the filter of runningOnly from
--                        pkg/framework/server.go: ServerTarget, ResolveProcess, KillServerProcess,
--                        DeleteServerPod, and the functions that the two waits poll with. The node agent and
--                        the API are parameters; what a call did is a record of what it sent and recorded.
--                        Pods and Processes choose the target, Kills has the faults and the waits, Targets
--                        and Faults the theorems.
--   Grace, Grace/*       pkg/framework/grace.go: classifyGrace, gracePhrases, earliest, parseLogStream,
--                        classifyGraceLines, sameAnnouncement, Window. Observations has the signals, Phrases
--                        the wording, Streams the lines; Wording, Signals and Windows have the theorems.
--   Grace/Files          pkg/framework/serverlogfile.go: parseServerLogRead, splitServerStamp; Stamps has
--                        lines, and Stamps/Origins where each line that is used comes from.
--   PodCaps, PodCaps/*   pkg/framework/podcaps.go: HasCap, CapGaps, ParseProcStatus, oneServerSet,
--                        capMasksOf, CapSetOf, sameProcessName. Sets, Reading and Processes have the
--                        definitions, Gaps, Servers and Masks the theorems.
--   Holders, Holders/*   pkg/framework/serverprocess.go: parseListenerFacts, pickHolder, processName. The
--                        maps are lists of entries, and the pids a list without repetitions. Facts reads a
--                        scan, Picks names the holder; Scans and Names have the theorems.
--   LockTool             pkg/framework/locktool.go: lockToolCmd, runLockTool, ParseLockAnswer.
--   LockTool/Kernel      cmd/locktool/main.go: main, try, getlk, setLock, getLock, parseLockArgs, over the
--                        pod's fcntl with its state. Answers and Calls have the round trip.
--   LockTool/Worker      cmd/locktool/main.go: hold's first pass, and worker as a place and a step from it,
--                        with an event for the run file that is removed. The test of the run file and the
--                        request for the lock are two steps, as they are two calls; a sleep is part of
--                        the step before it. Places says what holds at each place; Holding and Ending
--                        have the theorems and the promise that the worker is compared with.
--   Locks, Locks/*       pkg/framework/locks.go: State, awaitHeld, GrantsWithin, TryFlock, and HoldLock of
--                        locktool.go. Mounts and Table: pkg/framework/lockmount.go and nodeagent.go,
--                        CheckLockMount, LocalLocking, ParseMounts, ParseProcLocks, Covers. Table/Lines
--                        prints a lock in the columns of /proc/locks.
--   Peers, Peers/*       pkg/framework/peers.go: parseSocketTables, ParseProcNetTCP, PeersOn. An address is
--                        a list of bytes. Ports: pkg/framework/serverprocess.go, listeningInodes,
--                        listeningSocket, DiscoverServerProcess, on top of Holders.
--   Metrics, Metrics/*   pkg/framework/metrics.go: MetricsEndpointOf, ScrapeMetrics, ParseExposition,
--                        ClassifyMetrics. A map is a list of entries, in which put replaces.
--   Usage, Usage/*       pkg/framework/volumeusage.go (CompareUsage), io.go (the parsers), kubeletstats.go
--                        (VolumeUsageFor, FreshKubeletUsage over the rounds of Poll).
--   Census, Census/*     pkg/framework/ownership.go and dircensus.go: ParseOwnerCensus, ClassifyEntries.
--   Teardown, ...        pkg/framework/framework.go (DeleteCaseObjects, MarkClaimUnproven) and unmount.go
--                        (ForceDeletePodAt, AwaitUnmount): which claims a case deletes behind it. The
--                        marks of one part are what the other reads. The locks on the marks, and the
--                        contexts of clean-up, are left out: the calls come one after the other.
--   Tests, Tests/*       the definitions and the theorems on concrete inputs.
--
-- Parameters: the kernel's fcntl and the opening of a file, strconv.ParseFloat and strconv.Quote, the order
-- of floats, the product with a factor in float64, the embedded scripts' text, the pod's shell, the node
-- agent, the API's answers, the clock, time.Parse, the operator's grace patterns, and the sort of the
-- signals (sort.Slice keeps no order of equal stamps; only that it keeps the members is asked of it).
--
-- Bounds: the fuel is in printing a number, n + 1 rounds for n, which falls in each round, and in reading the
-- labels of a sample, a round for each character that is left. Every other loop goes over a list.
--
-- Not modelled: the wording of errors and reports, cancellation inside a call, bytes that are not UTF-8,
-- the case mapping of letters outside ASCII as far as no ASCII letter comes out of it, instants beyond the
-- years that an int64 of seconds can hold, and the parts of the repository that are calls of the Kubernetes
-- API, files or system calls.
pub mod Prelude
pub mod Text
pub mod Clock
pub mod Load
pub mod LockTool
pub mod Locks
pub mod Slo
pub mod Ranges
pub mod Shell
pub mod Sweep
pub mod LostLocks
pub mod Poll
pub mod Chaos
pub mod Grace
pub mod PodCaps
pub mod Peers
pub mod Metrics
pub mod Usage
pub mod Census
pub mod Teardown
pub mod Holders
pub mod Tests
