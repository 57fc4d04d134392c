-- ===== src/Windows/Errors/Handled.antt =====
-- Which errors get past `wrap_exceptions`.
use psutil.Prelude.{ℕ, ◌≡◌, ◌≢◌, refl, false, true, Error, arith, ◌⊎◌, inl, inr, Bool-cases, subst}
use psutil.Windows.Errors.{
  Codes, WinError, Kind, Call, returned, refused, raised, is_permission_err, convert_oserror,
  wrap_exceptions, of_kind,
}

-- An `OSError` that no handler converts.
pub record IsOther (codes : Codes) (e : WinError) : Type 0 where
  pub no_permission : is_permission_err codes e ≡ false
  pub no_lookup : e.kind ≢ Kind.process_lookup

abbrev pub Explains : {A : Type 0} → Codes → ℕ → Call A → Call A → Type 0
Explains codes pid call (returned a) = call ≡ returned a
Explains codes pid call (refused e) = (call ≡ refused e) × IsOther codes e
Explains codes pid call (raised x) =
    (call ≡ raised x)
    ⊎ ((e : WinError) × (call ≡ refused e)
        × (((x ≡ Error.access_denied pid) × (is_permission_err codes e ≡ true))
            ⊎ ((x ≡ Error.no_such_process pid)
                × (is_permission_err codes e ≡ false)
                × (e.kind ≡ Kind.process_lookup))))

of_kind-Explains :
    (A : Type 0) (codes : Codes) (pid : ℕ) (e : WinError) (k : Kind)
    → e.kind ≡ k
    → is_permission_err codes e ≡ false
    → Explains {A = A} codes pid (refused e) (of_kind pid k e)
of_kind-Explains A codes pid e Kind.process_lookup h p = inr (e, refl, inr (refl, p, h))
of_kind-Explains A codes pid e Kind.permission h p =
    (refl, record { no_permission = p; no_lookup = λ l. ground (arith, h, l) })
of_kind-Explains A codes pid e Kind.not_a_directory h p =
    (refl, record { no_permission = p; no_lookup = λ l. ground (arith, h, l) })
of_kind-Explains A codes pid e Kind.other h p =
    (refl, record { no_permission = p; no_lookup = λ l. ground (arith, h, l) })

-- What a wrapped method returns or raises is what the method did, where that was no `OSError`; an
-- `OSError` becomes AccessDenied of the PID exactly if it is a permission error, NoSuchProcess of the PID if
-- it is another one that says that the process is gone, and otherwise stays as it is.
pub wrap_exceptions-Explains :
    {A : Type 0} (codes : Codes) (pid : ℕ) (call : Call A)
    → Explains codes pid call (wrap_exceptions codes pid call)
unfolding wrap_exceptions convert_oserror
wrap_exceptions-Explains codes pid (returned a) = refl
wrap_exceptions-Explains codes pid (raised x) = inl refl
wrap_exceptions-Explains codes pid (refused e) = elim (Bool-cases (is_permission_err codes e)) [
  | inl h ↦ rw (h) (inr (e, refl, inl (refl, h)))
  | inr h ↦ rw (h) (of_kind-Explains _ codes pid e e.kind refl h)
]

pub wrap_exceptions-eq-returned :
    {A : Type 0} (codes : Codes) (pid : ℕ) (call : Call A) {a : A}
    → wrap_exceptions codes pid call ≡ returned a
    → call ≡ returned a
wrap_exceptions-eq-returned codes pid call h =
    subst (Explains codes pid call) h (wrap_exceptions-Explains codes pid call)
