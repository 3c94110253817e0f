-- ===== src/Infra/Subnet.antt =====
-- `same_subnet24` against addresses put together from a network and a host.
use ndn_mobile.Prelude.{◌≡◌, refl, false, ◌==◌, none, some, [], ◌∷◌, ◌++◌, All}
use ndn_mobile.Text.{Text, same}
use ndn_mobile.Infra.{push_net, net, both_same, same_subnet24}

-- No dot stands in a host.
abbrev pub IsHost : Text → Type 0
IsHost h = All (λ c. (c == b'.') ≡ false) h

net-host : (h : Text) → IsHost h → net h ≡ none
unfolding net push_net
net-host [] i = refl
net-host (c ∷ h) i = rw (net-host h i.1, i.0) refl

net-append : (n h : Text) → IsHost h → net (n ++ b'.' ∷ h) ≡ some n
unfolding net push_net
net-append [] h i = rw (net-host h i) refl
net-append (c ∷ n) h i = rw (net-append n h i) refl

-- Two addresses are on one subnet exactly if what stands before their last dots is the same text.
pub same_subnet24-append :
    (n m h k : Text)
    → IsHost h
    → IsHost k
    → same_subnet24 (n ++ b'.' ∷ h) (m ++ b'.' ∷ k) ≡ same n m
unfolding same_subnet24 both_same
same_subnet24-append n m h k i j = rw (net-append n h i, net-append m k j) refl
