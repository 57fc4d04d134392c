-- ===== src/Windows/Services/Consistent.antt =====
-- `as_dict` of a service says what its methods say.
use psutil.Prelude.{◌≡◌, refl, ap, subst, ℕ, Option, arith}
use psutil.Text.{Bytes}
use psutil.Windows.Errors.{Codes}
use psutil.Windows.Services.{
  Service, Query, found, denied, no_such_service, failed, ◌>>=◌, Answers, Config, ServiceInfo, info,
  query_config, query_status, binpath, username, start_type, pid, status, description, as_dict,
}

info_or : ServiceInfo → Query ServiceInfo → ServiceInfo
info_or d (found i) = i
info_or d q = d

found-injective : (i j : ServiceInfo) → found i ≡ found j → i ≡ j
unfolding info_or
found-injective i j h = ap (info_or i) h

>>=-eq-found :
    {A B : Type 0} (m : Query A) (f : A → Query B) {r : B}
    → (m >>= f) ≡ found r
    → (a : A) × (m ≡ found a) × (f a ≡ found r)
>>=-eq-found (found a) f h = (a, refl, h)
>>=-eq-found denied f h = absurd (ground (arith, h))
>>=-eq-found no_such_service f h = absurd (ground (arith, h))
>>=-eq-found (failed e) f h = absurd (ground (arith, h))

-- The methods of the service return what stands in the dict.
pub record Says (codes : Codes) (answers : Answers) (s : Service) (i : ServiceInfo) : Type 0 where
  pub binpath_eq : binpath codes answers s ≡ found i.binpath
  pub username_eq : username codes answers s ≡ found i.username
  pub start_type_eq : start_type codes answers s ≡ found i.start_type
  pub status_eq : status codes answers s ≡ found i.status
  pub pid_eq : pid codes answers s ≡ found i.pid
  pub description_eq : description codes answers s ≡ found i.description
  pub name_eq : i.name ≡ s.service_name
  pub display_name_eq : i.display_name ≡ s.cached_display_name

info-Says :
    (codes : Codes) (answers : Answers) (s : Service) (c : Config) (r : Bytes × Option ℕ)
    (d : Bytes)
    → query_config codes answers s ≡ found c
    → query_status codes answers s ≡ found r
    → description codes answers s ≡ found d
    → Says codes answers s (info s c r d)
unfolding binpath username start_type status pid
info-Says codes answers s c r d ce re de = record {
  binpath_eq = rw (ce) refl;
  username_eq = rw (ce) refl;
  start_type_eq = rw (ce) refl;
  status_eq = rw (re) refl;
  pid_eq = rw (re) refl;
  description_eq = de;
  name_eq = refl;
  display_name_eq = refl;
}

-- If as_dict of a service returns a dict, each method of the service that is in it by name returns the
-- value that stands there; the display name is the one cached in the object, not the one just queried.
pub as_dict-Says :
    (codes : Codes) (answers : Answers) (s : Service) (i : ServiceInfo)
    → as_dict codes answers s ≡ found i
    → Says codes answers s i
unfolding as_dict
as_dict-Says codes answers s i h =
    let (c, ce, h1) = >>=-eq-found (query_config codes answers s) _ h in
    let (r, re, h2) = >>=-eq-found (query_status codes answers s) _ h1 in
    let (d, de, h3) = >>=-eq-found (description codes answers s) _ h2 in
    subst (Says codes answers s) (found-injective _ i h3) (info-Says codes answers s c r d ce re de)
