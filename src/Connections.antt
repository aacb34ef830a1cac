-- ===== src/Connections.antt =====
-- simulator/balancer/connections.go: what the balancer notes of a mapped connection. A time is a
-- count of nanoseconds that the engine's clock, which does not run backward, has reached.
pub mod Phases
pub mod Idle
use balancer_go.Base.{
  ℕ, ◌-◌, Bool, true, false, ◌&&◌, ◌||◌, not, ltb, leb, ◌==◌, if◌then◌else◌, Option, none, some,
  List, [], ◌∷◌,
}
use balancer_go.Base.Int.{ℤ, pos, negsuc}
use balancer_go.Model.{Packet, Flag, Protocol, tcp}

pub record TimeoutConfig : Type 0 where
  pub half_open : ℤ
  pub established : ℤ
  pub closing : ℤ
  pub reset : ℤ

pub data ConnectionPhase : Type 0 where
  state_half_open state_established state_closing state_reset : ConnectionPhase

pub record ConnectionState : Type 0 where
  pub last_activity : ℕ
  pub phase : ConnectionPhase

abbrev pub at_least_zero : ℤ → Bool
at_least_zero (pos n) = true
at_least_zero (negsuc n) = false

-- SetMappingTimeouts, of a balancer with so many clients. `none` is the panic.
unfoldable pub set_mapping_timeouts : TimeoutConfig → ℕ → Option TimeoutConfig
set_mapping_timeouts config clients =
    let valid_limits =
      at_least_zero config.half_open
      && at_least_zero config.established
      && at_least_zero config.closing
      && at_least_zero config.reset in
    if not valid_limits || not (clients == 0) then none else some config

abbrev pub is_tcp : Protocol → Bool
is_tcp tcp = true
is_tcp _ = false

-- The packet's flags, ECE and CWR aside, are exactly these of SYN, FIN, RST, ACK and PSH.
abbrev same : Bool → Bool → Bool
same true b = b
same false b = not b

abbrev pub has_base_flags : Flag → Bool → Bool → Bool → Bool → Bool → Bool
has_base_flags flag syn fin rst ack psh =
    same flag.syn syn
    && same flag.fin fin
    && same flag.rst rst
    && same flag.ack ack
    && same flag.psh psh
    && not flag.urg

abbrev pub is_empty : ℤ → Bool
is_empty (pos n) = n == 0
is_empty (negsuc n) = false

unfoldable pub supported_mapping_packet : Packet → Bool → Bool
supported_mapping_packet pkt from_server =
    let f = has_base_flags pkt.flag in
    if not (is_tcp pkt.key.protocol) || not (at_least_zero pkt.size)
    then false
    else if f true false false false false
    then not from_server && is_empty pkt.size
    else if f true false false true false
    then from_server && is_empty pkt.size
    else if f false false false true false || f false false false true true
    then true
    else if f false true false true false
        || f false false true false false
        || f false false true true false
    then is_empty pkt.size
    else false

abbrev pub is_phase_reset : ConnectionPhase → Bool
is_phase_reset state_reset = true
is_phase_reset _ = false

abbrev pub is_phase_closing : ConnectionPhase → Bool
is_phase_closing state_closing = true
is_phase_closing _ = false

unfoldable pub observe : Packet → Bool → ℕ → ConnectionState → ConnectionState
observe pkt from_server now connection =
    let seen = record connection { last_activity = now } in
    if not (supported_mapping_packet pkt from_server)
    then connection
    else if pkt.flag.rst
    then record seen { phase = state_reset }
    else if is_phase_reset connection.phase
    then seen
    else if pkt.flag.fin
    then record seen { phase = state_closing }
    else if is_phase_closing connection.phase
    then seen
    else if not from_server && not pkt.flag.syn && pkt.flag.ack
    then record seen { phase = state_established }
    else seen

abbrev pub timeout_of : TimeoutConfig → ConnectionPhase → ℤ
timeout_of timeouts state_half_open = timeouts.half_open
timeout_of timeouts state_established = timeouts.established
timeout_of timeouts state_closing = timeouts.closing
timeout_of timeouts state_reset = timeouts.reset

-- The time since the last activity has reached a timeout that is on.
abbrev pub has_passed : ℤ → ℕ → Bool
has_passed (pos timeout) idle = ltb 0 timeout && leb timeout idle
has_passed (negsuc n) idle = false

unfoldable pub expired : TimeoutConfig → ℕ → ConnectionState → Bool
expired timeouts now connection =
    has_passed (timeout_of timeouts connection.phase) (now - connection.last_activity)
