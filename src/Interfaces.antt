-- ===== src/Interfaces.antt =====
-- psutil/__init__.py: `net_if_addrs`.
pub mod Addresses
pub mod Padding
use psutil.Prelude.{
  ℕ, zero, suc, ◌+◌, Bool, true, false, ◌&&◌, ◌||◌, ◌==◌, not, Option, none, some, List, [], ◌∷◌,
  ◌++◌, Result, ok, err, if◌then◌else◌, ltb,
}
use psutil.Prelude.Int.{ℤ, pos, ltb_ℤ}
use psutil.Prelude.Dict.{Dict, lookup, insert}
use psutil.Text.{Bytes, b}
use psutil.Environ.{same_bytes}
use psutil.Platform.{Platform, is_posix, is_windows}

-- What the platform module lists: name, family, address, netmask, broadcast, ptp.
pub record RawAddr : Type 0 where
  pub name : Bytes
  pub family : ℤ
  pub address : Bytes
  pub netmask : Option Bytes
  pub broadcast : Option Bytes
  pub ptp : Option Bytes

-- `snicaddr`
pub record NicAddr : Type 0 where
  pub family : ℤ
  pub address : Bytes
  pub netmask : Option Bytes
  pub broadcast : Option Bytes
  pub ptp : Option Bytes

-- The constants of the families on the platform.
pub record Families : Type 0 where
  pub af_link : ℤ
  pub af_inet : ℤ
  pub af_inet6 : ℤ

abbrev pub same_family : ℤ → ℤ → Bool
same_family a c = not (ltb_ℤ a c) && not (ltb_ℤ c a)

-- `rawlist.sort(key=lambda x: x[1])`, which is stable
unfoldable pub put_in_order : RawAddr → List RawAddr → List RawAddr
put_in_order r [] = r ∷ []
put_in_order r (x ∷ l) =
    let rest = put_in_order r l in if ltb_ℤ x.family r.family then x ∷ rest else r ∷ x ∷ l

unfoldable pub in_order : List RawAddr → List RawAddr
unfolding put_in_order
in_order [] = []
in_order (r ∷ l) = put_in_order r (in_order l)

-- `addr.count(sep)`
unfoldable pub count : ℕ → Bytes → ℕ
count sep [] = 0
count sep (c ∷ s) = let rest = count sep s in if c == sep then suc rest else rest

abbrev pub null_byte : ℕ → Bytes
null_byte sep = sep ∷ b "00"

-- `while addr.count(separator) < 5: addr += f"{separator}00"`, on fuel.
unfoldable pub pad : ℕ → ℕ → Bytes → Bytes
unfolding count
pad zero sep addr = addr
pad (suc fuel) sep addr =
    let rest = pad fuel sep (addr ++ null_byte sep) in if ltb (count sep addr) 5 then rest else addr

abbrev pub separator : Platform → ℕ
separator os = if is_posix os then b':' else b'-'

-- Each round adds a separator, so that five rounds are enough.
unfoldable pub full_address : Platform → Families → ℤ → Bytes → Bytes
unfolding pad
full_address os families fam addr =
    if same_family fam families.af_link then pad 5 (separator os) addr else addr

abbrev pub is_set : Option Bytes → Bool
is_set none = false
is_set (some []) = false
is_set (some (c ∷ s)) = true

-- Whether the broadcast address is looked at.
abbrev pub has_broadcast : Platform → Families → NicAddr → Bool
has_broadcast os families nt =
    is_set nt.netmask
    && (same_family nt.family families.af_inet
        || (is_windows os && same_family nt.family families.af_inet6))

-- `calculated` is what `broadcast_addr(nt)` returns or raises.
abbrev pub with_broadcast : Platform → Result (Option Bytes) → NicAddr → NicAddr
with_broadcast os (err e) nt = nt
with_broadcast os (ok none) nt = record nt { broadcast = none }
with_broadcast os (ok (some addr)) nt =
    if is_windows os then record nt { broadcast = some addr } else nt

-- The list under a key of the `defaultdict`
abbrev pub or_nil : Option (List NicAddr) → List NicAddr
or_nil none = []
or_nil (some l) = l

module _ (os : Platform) (families : Families)
    (broadcast_addr : NicAddr → Result (Option Bytes)) where
  abbrev pub checked : NicAddr → NicAddr
  checked nt = if has_broadcast os families nt then with_broadcast os (broadcast_addr nt) nt else nt

  -- The body of the loop, up to the address. The families are numbers here, and `AddressFamily(fam)` and
  -- AF_LINK compare equal to the numbers that they replace.
  unfoldable pub nic_addr : RawAddr → NicAddr
  unfolding full_address
  nic_addr r = checked (record {
    family = r.family;
    address = full_address os families r.family r.address;
    netmask = r.netmask;
    broadcast = r.broadcast;
    ptp = r.ptp;
  })

  -- `ret[name].append(nt)`
  unfoldable pub append_addr :
      Bytes → NicAddr → Dict Bytes (List NicAddr) → Dict Bytes (List NicAddr)
  unfolding lookup insert same_bytes
  append_addr name nt ret =
      insert same_bytes name (or_nil (lookup same_bytes name ret) ++ (nt ∷ [])) ret

  unfoldable pub add_addrs : List RawAddr → Dict Bytes (List NicAddr) → Dict Bytes (List NicAddr)
  unfolding append_addr nic_addr
  add_addrs [] ret = ret
  add_addrs (r ∷ l) ret = add_addrs l (append_addr r.name (nic_addr r) ret)

  unfoldable pub net_if_addrs : List RawAddr → Dict Bytes (List NicAddr)
  unfolding add_addrs in_order
  net_if_addrs rawlist = add_addrs (in_order rawlist) []
