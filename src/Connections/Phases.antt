-- ===== src/Connections/Phases.antt =====
-- simulator/balancer/connections.go: a mapping's phase.
use balancer_go.Base.{ℕ, Bool, ◌&&◌, not, if◌then◌else◌, List, [], ◌∷◌, ◌≡◌, max, arith}
use balancer_go.Model.{Packet}
use balancer_go.Connections.{
  ConnectionPhase, state_half_open, state_established, state_closing, state_reset, ConnectionState,
  supported_mapping_packet, observe,
}

-- A packet with its direction and its time.
pub record Observation : Type 0 where
  pub packet : Packet
  pub from_server : Bool
  pub time : ℕ

abbrev pub is_supported : Observation → Bool
is_supported o = supported_mapping_packet o.packet o.from_server

abbrev pub observe_all : List Observation → ConnectionState → ConnectionState
observe_all [] c = c
observe_all (o ∷ os) c = observe_all os (observe o.packet o.from_server o.time c)

-- How far a connection has come.
abbrev pub rank : ConnectionPhase → ℕ
rank state_half_open = 0
rank state_established = 1
rank state_closing = 2
rank state_reset = 3

-- How far a packet alone shows a connection to be.
abbrev pub evidence : Observation → ℕ
evidence o =
    if not (is_supported o)
    then 0
    else if o.packet.flag.rst
    then 3
    else if o.packet.flag.fin
    then 2
    else if not o.from_server && not o.packet.flag.syn && o.packet.flag.ack
    then 1
    else 0

abbrev pub furthest : List Observation → ℕ
furthest [] = 0
furthest (o ∷ os) = max (evidence o) (furthest os)

observe_lem :
    (o : Observation) (at : ℕ) (phase : ConnectionPhase)
    → rank
        (observe o.packet o.from_server o.time (record { last_activity = at; phase = phase })).phase
      ≡ max (rank phase) (evidence o)
unfolding observe
observe_lem o at state_half_open = ground arith
observe_lem o at state_established = ground arith
observe_lem o at state_closing = ground arith
observe_lem o at state_reset = ground arith

-- After any packets, a mapping is in the furthest phase among its first one and those that the
-- supported packets show: reset by an RST, closing by a FIN, established by a client's ACK that is
-- no SYN. So the order of the packets does not matter to it, and no packet takes it back.
pub phase-observe_all :
    (os : List Observation) (c : ConnectionState)
    → rank (observe_all os c).phase ≡ max (rank c.phase) (furthest os)
phase-observe_all [] c = omega arith
phase-observe_all (o ∷ os) c =
    let next = observe o.packet o.from_server o.time c in
    omega (arith, phase-observe_all os next, observe_lem o c.last_activity c.phase)
