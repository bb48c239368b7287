-- ===== src/Lib.antt =====
-- A model of the QNM node and of the parts of the QNS daemon that carry state of their own.
--
-- A node (qnm/node.py) goes through states in one direction, from COLD to SCORCHED. It owns bearers,
-- tethers, pair binds, an outbox, a wait and the lock of its installation, and it writes a receipt of
-- each act as a link of its local chain. The wires (qnm/wires.py) hold a tip and apply a cite of
-- another one after a dwell. The federation (qnm/fedmesh) keeps a ledger of signed receipts
-- and a budget for each peer. The daemon (qnsd) sends photons over the first via that takes them and
-- retries what waits on the LAN. Frames between nodes go over the spiderweb (qnm/spiderweb.py) along pair edges,
-- packets to a peer over the LAN session (qnsd/lan).
--
-- Which file models what:
--   Base       results and refusals, texts, dictionaries, lists and the dropping of JSONL rows
--   Digest     `canonical_hash` of qnm/wires.py, and SHA-256 as the parameter `Hash`
--   Chain      qnm/chain.py; Chain/Seal its invariant over histories, Chain/Tamper what a tip commits to
--   Bearers    qnm/bearers.py
--   Tethers    qnm/tethers.py
--   Bytes      bytes of Python: hexadecimal, UTF-8, slices and big-endian numbers
--   Pairs      qnm/pairs.py and the pair rows of qnm/memorial.py; Pairs/Identity the pair_id,
--              Pairs/Rounds the handshake, Pairs/Ledger the stored binds
--   Wires      qnm/wires.py; Wires/Dwell cites, Wires/Peers views of peers, Wires/Payloads pulled bytes,
--              Wires/Tick and Wires/Frames the tick frame
--   Boot       qnm/boot.py
--   Outbox     qnm/outbox.py
--   Phoenix    qnm/phoenix.py and qnm/score.py
--   Node       qnm/node.py: states, guards and receipts; Node/Life and Node/Acts the acts, and every
--              act as one step (`perform`); Node/Forward, Node/Dead and Node/Quiet what histories keep
--   Fed        qnm/fedmesh: chain.py (Fed/Receipts, Fed/Runs), peers.py (Fed/Guard), relay.py (Fed/Spool,
--              Fed/Quota), objects.py (Fed/Objects), policy.py (Fed/Outbound), access.py (Fed/Roles)
--   Walker     qnsd/walker.py with qnsd/translate.py; Walker/Stack its theorems
--   Apg        qnm/apg.py, the poison gate
--   Spiderweb  qnm/spiderweb.py: the web, `path_roots` and what a node does with a frame; Spiderweb/Walks
--              the walk; Spiderweb/Paths the search, with Ends, Ways, Universe and Routes about it;
--              Spiderweb/Hops, Arrives and Carried about the walk
--   Nolie      qnm/nolie.py
--   Coldcopy   qnm/coldcopy.py; Coldcopy/Held where replicas lie, Coldcopy/Stored what was stored
--   Sanitize   qnsd/sanitize.py
--   Waits      qnsd/outbox.py, the outbox of the daemon with its lock file
--   Light      qnsd/light/codec.py; Light/Codec its round trip
--   Retries    qnsd/lan/queue.py
--   Lan        qnsd/lan: Lan/Frames frame.py, Lan/Fragments the fragments of session.py (with Pieces,
--              Whole and Counts about them), Lan/Receipts receipts.py, Lan/Session the service of a packet in
--              session.py with ledger.py (Serving and Agree about it), Lan/Routes peers.py and router.py
--   Checks     concrete data, and a run of each property
--
-- How state and operations correspond: an object with mutable fields is a record, and a method that
-- changes it is an `Act`, from the state before to a result and the state after. What was written
-- before a refusal stays written. A refusal (QNMRefuse, QNSRefuse, LanRefuse) is its code; the detail
-- text is not carried. A text is the list of its code points. A JSONL file is the list of its rows,
-- and its writing is taken to succeed; only of the chain is the text of the file modelled, and how it
-- is cut into lines again. Constant fields of returned dictionaries (spec, author, fixed
-- flags) are left out. Clocks, random bytes and jitter are arguments.
--
-- SHA-256 is a parameter that gives 64 lower-case hexadecimal digits; canonical JSON is a parameter.
-- The order in which Python walks a set is a parameter. Two loops run on fuel: the search of
-- `path_roots`, with one unit more than the web has pair ends, and the walk of a frame, with one unit
-- more than its hop limit; Spiderweb/Ways and Spiderweb/Arrives are about why both are enough. The
-- pieces of a packet are cut with its length as fuel, and each has at least one byte. All other loops
-- are recursion on a list. Numbers are unbounded, as in Python.
--
-- Not modelled: HTTP routes and pages, sockets, TLS and the handshake over it, host probes of radios,
-- cryptography, the federation service with its sandbox, ethics and mirrors, archives,
-- the acts of the daemon's node, and of the node's the vault, archive, planes and shelf acts and
-- `reheal`, which takes links off the chain. A receipt is modelled up to its link in the chain.
pub mod Base
pub mod Digest
pub mod Chain
pub mod Coldcopy
pub mod Bearers
pub mod Tethers
pub mod Bytes
pub mod Pairs
pub mod Wires
pub mod Boot
pub mod Outbox
pub mod Phoenix
pub mod Node
pub mod Fed
pub mod Walker
pub mod Retries
pub mod Apg
pub mod Spiderweb
pub mod Sanitize
pub mod Lan
pub mod Light
pub mod Waits
pub mod Nolie
pub mod Checks
