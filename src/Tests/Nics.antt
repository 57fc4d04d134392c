-- ===== src/Tests/Nics.antt =====
-- Addresses of interfaces.
use psutil.Prelude.{◌≡◌, refl, true, false, none, some, List, [], ◌∷◌, Option, Result, ok, map}
use psutil.Prelude.Int.{pos}
use psutil.Prelude.Dict.{lookup}
use psutil.Text.{Bytes, b}
use psutil.Environ.{same_bytes}
use psutil.Platform.{Platform}
use psutil.Interfaces.{RawAddr, NicAddr, Families, or_nil, nic_addr, full_address, net_if_addrs}
use psutil.Interfaces.Addresses.{named, IsSorted, net_if_addrs-IsSorted}

abbrev families : Families
families = record { af_link = pos 17; af_inet = pos 2; af_inet6 = pos 10 }

abbrev no_broadcast : NicAddr → Result (Option Bytes)
no_broadcast nt = ok none

abbrev mac : RawAddr
mac = record {
  name = b "eth0";
  family = pos 17;
  address = b "00:1a:2b";
  netmask = none;
  broadcast = none;
  ptp = none;
}

abbrev inet : RawAddr
inet = record {
  name = b "eth0";
  family = pos 2;
  address = b "10.0.0.2";
  netmask = some (b "255.255.255.255");
  broadcast = some (b "10.0.0.2");
  ptp = none;
}

padded : full_address Platform.linux families (pos 17) (b "00:1a:2b") ≡ b "00:1a:2b:00:00:00"
unfolding full_address
padded = refl

-- The family 2 comes first, and its broadcast address is taken away.
one_nic :
    net_if_addrs Platform.linux families no_broadcast (mac ∷ inet ∷ [])
    ≡ (
      b "eth0",
      (record {
        family = pos 2;
        address = b "10.0.0.2";
        netmask = some (b "255.255.255.255");
        broadcast = none;
        ptp = none;
      })
          ∷ (record {
            family = pos 17;
            address = b "00:1a:2b:00:00:00";
            netmask = none;
            broadcast = none;
            ptp = none;
          })
          ∷ [],
    )
      ∷ []
unfolding net_if_addrs psutil.Prelude.ℕ_discrete
one_nic = refl

net_if_addrs-IsSorted_example :
    (sorted : List RawAddr) × IsSorted (mac ∷ inet ∷ []) sorted
    × ((name : Bytes)
        → or_nil (
            lookup same_bytes name
              (net_if_addrs Platform.linux families no_broadcast (mac ∷ inet ∷ [])))
          ≡ map (nic_addr Platform.linux families no_broadcast) (named name sorted))
net_if_addrs-IsSorted_example =
    net_if_addrs-IsSorted Platform.linux families no_broadcast (mac ∷ inet ∷ [])
