-- ===== src/Congestion/Tahoe.antt =====
-- simulator/protocols/tcp/congestion_control/tahoe.go: a classic window and nothing else.
use balancer_go.Base.{false, ◌||◌, if◌then◌else◌}
use balancer_go.Congestion.{
  ClassicWindow, Loss, LossKind, fast_retransmit_loss, timeout_loss, handshake_loss,
  restart_after_loss, restart_after_handshake_loss,
}

-- The cases of `OnLoss`.
unfoldable pub on_loss_of : LossKind → Loss → ClassicWindow → ClassicWindow
on_loss_of fast_retransmit_loss loss window =
    if loss.already_reduced then window else restart_after_loss loss.flight_bytes false window
on_loss_of timeout_loss loss window =
    restart_after_loss loss.flight_bytes (loss.already_timed_out || loss.already_reduced) window
on_loss_of handshake_loss loss window = restart_after_handshake_loss window

unfoldable pub on_loss : Loss → ClassicWindow → ClassicWindow
unfolding on_loss_of
on_loss loss window = on_loss_of loss.kind loss window
