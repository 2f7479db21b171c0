-- ===== src/Host/Parts.antt =====
-- src/daemon.cpp: what is done to one of the two parts of `Daemon::Impl`, and has returned.
use democrit.Base.{◌≡◌, ap, text_eq, Exec, ok}
use democrit.MucClient.{MucClient, is_connected}
use democrit.Daemon.{Daemon}
use democrit.Host.{Host, on_client, on_daemon}

module _ {W : Type 0} where
  pub on_client-eq-ok :
      {A : Type 0} (m : Exec MucClient A) (h h' : Host W) {a : A}
      → on_client m h ≡ (ok a, h')
      → (m h.client ≡ (ok a, h'.client)) × (h.daemon ≡ h'.daemon)
  unfolding on_client
  on_client-eq-ok m h h' e = ((λ i. ((e i).0, (e i).1.client)), ap (λ r. r.1.daemon) e)

  pub on_daemon-eq-ok :
      {A : Type 0} (m : Exec (Daemon W) A) (h h' : Host W) {a : A}
      → on_daemon m h ≡ (ok a, h')
      → (m (record h.daemon { connected = is_connected h.client }) ≡ (ok a, h'.daemon))
        × (h.client ≡ h'.client)
  unfolding on_daemon
  on_daemon-eq-ok m h h' e = ((λ i. ((e i).0, (e i).1.daemon)), ap (λ r. r.1.client) e)
