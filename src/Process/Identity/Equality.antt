-- ===== src/Process/Identity/Equality.antt =====
-- When two `Process` objects compare equal, and that equal objects hash alike.
use psutil.Prelude.{ℕ, suc, true, false, none, some, ◌≡◌, ◌≢◌, ◌↔◌, ◌⊎◌, arith}
use psutil.Process.Defs.{Process}
use psutil.Process.Identity.{eq, hash_of, is_null}

-- Two objects are equal exactly when their PIDs agree and their creation times agree or one of
-- the two is missing or zero.
pub eq_iff :
    (p q : Process)
    → (eq p q ≡ true) ↔ (
        (p.ident.pid ≡ q.ident.pid)
        × ((is_null p.ident.ctime ≡ true)
            ⊎ ((is_null q.ident.ctime ≡ true) ⊎ (p.ident.ctime ≡ q.ident.ctime))))
unfolding eq
eq_iff p q = (λ h. ground arith, λ h. ground arith)

pub eq_comm : (p q : Process) → eq p q ≡ eq q p
unfolding eq
eq_comm p q = ground arith

-- A cached hash is the hash of the PID.
abbrev pub IsHashed : (ℕ → ℕ) → Process → Type 0
IsHashed hash p = (p.hash ≡ none) ⊎ (p.hash ≡ some (hash p.ident.pid))

-- Objects that compare equal have the same hash, whatever the hash of numbers is and whether or
-- not the hashes are cached, and taking the hash leaves a cached hash that is right.
pub eq-hash :
    (hash : ℕ → ℕ) (p q : Process)
    → IsHashed hash p
    → IsHashed hash q
    → eq p q ≡ true
    → ((hash_of hash p).0 ≡ (hash_of hash q).0) × IsHashed hash (hash_of hash p).1
unfolding eq hash_of
eq-hash hash p q hp hq e = ground arith

-- Equality is not transitive: an object with no creation time equals the old and the new owner
-- of its PID, and these two differ.
pub eq_not_transitive :
    (p q r : Process) (a b : ℕ)
    → p.ident ≡ record { pid = q.ident.pid; ctime = some (suc a) }
    → q.ident.ctime ≡ none
    → r.ident ≡ record { pid = q.ident.pid; ctime = some (suc b) }
    → a ≢ b
    → (eq p q ≡ true) × (eq q r ≡ true) × (eq p r ≡ false)
unfolding eq
eq_not_transitive p q r a b hp hq hr ne = ground arith
