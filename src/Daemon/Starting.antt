-- ===== src/Daemon/Starting.antt =====
-- src/daemon.cpp, the constructor: a new node is consistent.
use democrit.Base.{
  ◌≡◌, refl, some, [], Text, List, and_then-eq-some, checked-eq-some, some-injective, str_eq,
}
use mathlib.Core.Path.{subst}
use democrit.Authenticator.{Jid, authenticate, lookup_jid}
use democrit.Authenticator.Known.{authenticate-AllSpeak}
use democrit.Daemon.{Daemon, new_daemon}
use democrit.Daemon.Keeping.{IsConsistent}

-- So what holds of a consistent node after any events holds of every node that starts.
new_daemon-IsConsistent :
    {W : Type 0} (servers : List Text) (account : Text) (jid : Jid) (w : W) (d : Daemon W)
    → new_daemon servers account jid w ≡ some d
    → IsConsistent servers account d
unfolding new_daemon lookup_jid
new_daemon-IsConsistent servers account jid w d e =
    let (own, _, rest) = and_then-eq-some (authenticate servers jid []).0 _ e in
    let (_, made) = checked-eq-some (str_eq own account) _ rest in
    let known = authenticate-AllSpeak servers jid [] (λ by to found. cc found) in
    subst (IsConsistent servers account) (some-injective made)
      (record { parties = (refl, tt); addresses = known; entries = tt; own = tt; messages = tt })
