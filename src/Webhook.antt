-- ===== src/Webhook.antt =====
-- internal/service/webhook.go: NotifyIPChange hands a payload to a goroutine, if there is a URL to
-- post to, and Webhook.Delivery is what the goroutine does.
pub mod Delivery
pub mod Receiver
pub mod Received
use medods_dvortsov.Prelude.{String, ◌∷◌, ◌==◌, if◌then◌else◌}
use medods_dvortsov.Go.Errors.{ok}
use medods_dvortsov.Platform.{Platform}
use medods_dvortsov.Program.{IpChange, Action}

module _ (p : Platform) where
  unfoldable pub notify_ip_change : String → IpChange → Action p Unit
  notify_ip_change webhook_url change w =
      (ok tt, if webhook_url == "" then w else record w { notified = change ∷ w.notified })
