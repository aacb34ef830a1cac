-- ===== src/Network/Link/Release.antt =====
-- simulator/network/link.go: the end of a transmission on a managed link.
use balancer_go.Base.{ℕ, ◌+◌, ◌<◌, ◌≡◌, refl, ◌∙◌, Bool, true, false, max_u64, ◌+u64◌}
use balancer_go.Base.Int.{pos}
use balancer_go.Engine.{Engine, ok, panic, schedule_after}
use balancer_go.Engine.Queue.{IsEngine}
use balancer_go.Engine.Returns.{Returns, Returns-elim, Returns-both, IsNext, schedule_after-Returns}
use balancer_go.Network.Link.{Link, Transmission, finish, start_next, complete, happens}
use balancer_go.Network.Link.Invariant.{IsLink}
use balancer_go.Network.Link.Progress.{IsFree, finish-Returns, idle}

-- What the end of a transmission leaves of a managed link.
pub record IsReleased {C : Type 0} (before after : Link C) : Type 0 where
  pub link : IsLink after
  pub config : after.config ≡ before.config
  pub managed : after.managed ≡ true
  pub offered : after.stats.offered_packets ≡ before.stats.offered_packets
  pub free : after.transmitting ≡ false

module _ {C K : Type 0} (completes arrives : Transmission C → K) (zero : Transmission C) (a i : ℕ)
    (e : Engine K) (v : IsEngine a i e) where
  abbrev IsFrame : Link C → Link C × Engine K → Type 0
  IsFrame l r =
      (r.0.config ≡ l.config)
      × (r.0.managed ≡ l.managed)
      × (r.0.stats.offered_packets ≡ l.stats.offered_packets)
      × (r.0.transmitting ≡ false)

  finish-IsFrame :
      (p : Transmission C) (lost : Bool) (l : Link C)
      → e.next_id < max_u64
      → Returns {A = Link C × Engine K} (IsFrame l) (finish completes arrives zero p lost l e)
  unfolding finish
  finish-IsFrame p true l h = (refl, refl, refl, refl)
  finish-IsFrame p false l h =
      Returns-elim
        (λ r. Returns {A = Link C × Engine K} (IsFrame l) (elim r [
          | panic ↦ panic
          | ok (f, id) ↦ ok (
            record l {
              transmitting = false;
              travelling = l.travelling + 1;
              stats = record l.stats {
                transmitted_bytes = l.stats.transmitted_bytes +u64 p.size_bytes;
              };
            },
            f,
          )
        ]))
        (schedule_after (pos l.config.packet_travel_time) (arrives p) e)
        (schedule_after-Returns a i e v l.config.packet_travel_time (arrives p) h)
        (λ r n. (refl, refl, refl, refl))

  -- A managed link only becomes free.
  pub complete-IsReleased :
      (p : Transmission C) (draw : Bool) (l : Link C)
      → e.next_id < max_u64
      → l.transmitting ≡ true
      → l.managed ≡ true
      → IsLink l
      → Returns {A = Link C × Engine K}
          (λ r. IsReleased l r.0 × IsNext a i e v r.1)
          (complete completes arrives zero p draw l e)
  unfolding complete start_next
  complete-IsReleased p draw l h t m w =
      let lost = happens l.config.loss_rate draw in
      Returns-elim
        (λ r.
          Returns {A = Link C × Engine K} (λ r. IsReleased l r.0 × IsNext a i e v r.1)
            (elim r [ panic ↦ panic | ok (m, f) ↦ start_next completes arrives zero m f ]))
        (finish completes arrives zero p lost l e)
        (Returns-both (λ r. IsFree r.0 × IsNext a i e v r.1) (IsFrame l)
          (finish completes arrives zero p lost l e)
          (finish-Returns completes arrives zero a i e v p lost l h t w)
          (finish-IsFrame p lost l h))
        (λ r n.
          let kept = n.1.1 ∙ m in
          simp kept (
            record {
              link = idle completes arrives zero a i e v r.0 (n.0.0.external kept) n.0.0;
              config = n.1.0;
              managed = kept;
              offered = n.1.2;
              free = n.1.3;
            },
            n.0.1,
          ))
