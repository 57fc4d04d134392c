-- ===== src/Oneshot.antt =====
-- psutil/_common.py: `memoize_when_activated`; psutil/__init__.py: `Process.oneshot`; psutil/_pslinux.py:
-- `oneshot_enter` and `oneshot_exit`. A getter is known by a key; what it returns is a parameter of
-- each call, so that it may differ from call to call.
pub mod Kept
use psutil.Prelude.{ℕ, Option, none, some, List, [], ◌∷◌, Result, ok, err, Error, Exec}
use psutil.Prelude.Dict.{Dict, lookup, insert}

-- `_cache` of an object; `none` is that it has no such attribute.
abbrev pub Cache : Type 0 → Type 0 → Type 0
Cache F V = Option (Dict F V)

module _ {F V : Type 0} (dec : Discrete F) where
  abbrev called : F → Result V → Dict F V → Result V × Cache F V
  called f (ok v) d = (ok v, some (insert dec f v d))
  called f (err e) d = (err e, some d)

  abbrev cached : F → Result V → Dict F V → Option V → Result V × Cache F V
  cached f answer d (some v) = (ok v, some d)
  cached f answer d none = called f answer d

  -- `wrapper`: `answer` is what `fun(self)` does if it is called now.
  unfoldable pub call : F → Result V → Exec (Cache F V) V
  call f answer none = (answer, none)
  call f answer (some d) = cached f answer d (lookup dec f d)

  -- Calls in a row, with what each would answer.
  unfoldable pub calls : List (F × Result V) → Cache F V → Cache F V
  unfolding call
  calls [] c = c
  calls ((f, answer) ∷ fs) c = calls fs (call f answer c).1

-- `cache_activate` and `cache_deactivate`, which do the same whatever getter they belong to.
unfoldable pub cache_activate : {F V : Type 0} → Cache F V → Cache F V
cache_activate c = some []

unfoldable pub cache_deactivate : {F V : Type 0} → Cache F V → Cache F V
cache_deactivate c = none

-- The caches of a `Process` and of its `_proc`.
pub record Caches (F V : Type 0) : Type 0 where
  pub front : Cache F V
  pub platform : Cache F V

-- `oneshot_enter` and `oneshot_exit` of the Linux module: three getters each.
unfoldable pub oneshot_enter : {F V : Type 0} → Caches F V → Caches F V
unfolding cache_activate
oneshot_enter c = record c {
  platform = cache_activate (cache_activate (cache_activate c.platform));
}

unfoldable pub oneshot_exit : {F V : Type 0} → Caches F V → Caches F V
unfolding cache_deactivate
oneshot_exit c = record c {
  platform = cache_deactivate (cache_deactivate (cache_deactivate c.platform));
}

-- The four getters of `Process` itself, on POSIX.
abbrev enter : {F V : Type 0} → Caches F V → Caches F V
enter c =
    oneshot_enter (record c {
      front = cache_activate (cache_activate (cache_activate (cache_activate c.front)));
    })

abbrev leave : {F V : Type 0} → Caches F V → Caches F V
leave c = oneshot_exit (record c {
  front = cache_deactivate (cache_deactivate (cache_deactivate (cache_deactivate c.front)));
})

abbrev left_with : {F V A : Type 0} → Result A × Caches F V → Result A × Caches F V
left_with (r, c) = (r, leave c)

abbrev shot : {F V A : Type 0} → Cache F V → Exec (Caches F V) A → Exec (Caches F V) A
shot (some d) body c = body c
shot none body c = left_with (body (enter c))

-- `with self.oneshot(): body`, on POSIX; the `finally` clause runs after a raise too.
unfoldable pub oneshot : {F V A : Type 0} → Exec (Caches F V) A → Exec (Caches F V) A
unfolding oneshot_enter oneshot_exit cache_activate cache_deactivate
oneshot body c = shot c.front body c
