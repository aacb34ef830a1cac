-- ===== src/Lib.antt =====
-- The simulator's core: a discrete-event engine, TCP's data structures and timers, and the load
-- balancer's choice of a backend. Paths are from the repository's root.
--
-- The engine (simulator/engine) runs callbacks at virtual times. TCP (simulator/protocols/tcp) keeps
-- what it sent in a send buffer, what arrived out of order in a receive buffer, what SACK blocks
-- reported in a scoreboard, and asks a congestion policy for its window and an estimator for its
-- timeout. The balancer (simulator/balancer) observes each connection's packets and asks an algorithm
-- (simulator/algorithms) for a backend. Packets pass between them on links (simulator/network), which
-- take time to send and to travel, and through the hosts' cores (simulator/host).
--
--   Base          numbers, tests and lists that the files share
--   Ranges        ranges of sequence positions, and lists of them in order
--   Model         simulator/model: packets, flags, constants
--   Engine        simulator/engine/engine.go; Engine/Run its RunUntil
--   Sack          simulator/protocols/tcp/sack/scoreboard.go
--   ReceiveBuffer simulator/protocols/tcp/receiver_buffer.go
--   SendBuffer    simulator/protocols/tcp/send_buffer.go
--   Congestion    simulator/protocols/tcp/congestion_control: window.go, reno.go, newreno.go, tahoe.go,
--                 factory.go, and CUBIC's clock
--   Rto           simulator/protocols/tcp/rto.go
--   Algorithms    simulator/algorithms
--   Connections   simulator/balancer/connections.go
--   Host          simulator/host/host.go: cores and the FIFO in front of them
--   Fifo          the waiting packets of simulator/network's links and inputs
--   Network       simulator/network: Network/Link link.go and queue_policy.go, Network/Ingress ingress.go
--   Balancer      simulator/balancer/balancer.go: the tables and the routing; Balancer/Traffic timers,
--                 chaos and the end, Balancer/Handling packets, Balancer/Registration servers
--   Tests         the theorems at concrete inputs
--
-- Names are the source's in snake case. A method becomes a function from the old state to the new one,
-- with its result beside it; a panic or an error is a value (`panic`, `none`, a constructor). Sums and
-- products of uint64 wrap as written (Base/Words). A slice is a list; a map that is only asked for its
-- keys is the list of them. The engine's heap is kept as the list that it would be popped in.
--
-- RunUntil recurses on a number of rounds. One more than the events that the engine's limit still
-- admits is enough. A callback is a script of engine calls, since it may schedule and cancel.
-- Random numbers are a function of the bound: what Intn returns; a comparison with a rate is a draw that
-- decides a rate that is neither 0 nor 1. A link's and the balancer's events are tags that the caller
-- gives to the engine, each with the function that runs it. The balancer's maps are functions of their
-- lookups, an endpoint is its address, and the algorithm is an interface (Balancer/Invariant) that round
-- robin fills (Balancer/RoundRobin).
--
-- Not modelled: CUBIC's curve and a threshold's percentage, which are in floating point; the endpoints'
-- state machines (client, server, TCP's sender and receiver), egress, scenarios, sessions, HTTP and the
-- presentation.
pub mod Base
pub mod Ranges
pub mod Sack
pub mod ReceiveBuffer
pub mod Engine
pub mod Model
pub mod SendBuffer
pub mod Algorithms
pub mod Congestion
pub mod Rto
pub mod Connections
pub mod Host
pub mod Fifo
pub mod Balancer
pub mod Network
pub mod Tests
