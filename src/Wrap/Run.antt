-- ===== src/Wrap/Run.antt =====
-- `run` on the whole state: it never fails on a valid state, and what it promises.
use psutil.Prelude.{ℕ, none, some, ◌≡◌, List, [], refl, arith}
use psutil.Prelude.Dict.{Dict, lookup, insert, lookup-insert}
use psutil.Wrap.{
  RemKey, Table, Reminders, WrapNumbers, total, keys_of, contains, dec_remkey, or_default, empty,
}
use psutil.Wrap.Dead.{IsTracked}
use psutil.Wrap.Rerun.{IsKnown}

module _ {K : Type 0} (dec : Discrete K) where
  abbrev pub watch : Dict (RemKey K) ℕ → Dict K (List (RemKey K)) → Reminders K
  watch t ks = record { totals = t; keys = ks }

  -- What holds between two calls, for every name: the three dicts know the same names, and the
  -- reminders of a name are those of keys of its last input.
  pub record IsValid (w : WrapNumbers K) : Type 0 where
    pub unwatched :
        (name : K)
        → lookup dec name w.cache ≡ none
        → (lookup dec name w.reminders ≡ none) × (lookup dec name w.reminder_keys ≡ none)
    pub watched :
        (name : K) (old : Table K)
        → lookup dec name w.cache ≡ some old
        → (t : Dict (RemKey K) ℕ) × (ks : Dict K (List (RemKey K))) × (lookup dec name w.reminders
            ≡ some t)
          × (lookup dec name w.reminder_keys ≡ some ks)
          × IsTracked dec (watch t ks)
          × IsKnown dec old (watch t ks)

  -- The reminder of a counter.
  unfoldable pub offset : K → K → ℕ → WrapNumbers K → ℕ
  offset name k j w =
      or_default 0 (lookup (dec_remkey dec) (k, j) (or_default [] (lookup dec name w.reminders)))

  -- `self.cache[name]`, empty before the first call.
  unfoldable pub last : K → WrapNumbers K → Table K
  last name w = or_default [] (lookup dec name w.cache)

  pub watch-IsTracked : IsTracked dec (watch [] [])
  unfolding keys_of contains lookup total
  watch-IsTracked = record {
    distinct = λ k. tt;
    owned = λ k r m. cc;
    present = λ k r m. cc;
    tracked = λ k i m. refl;
  }

  pub watch-IsKnown : (input : Table K) → IsKnown dec input (watch [] [])
  unfolding keys_of lookup
  watch-IsKnown input = record { known = λ k e. refl }

  -- A state in which one name is watched anew.
  module _ (name : K) (input : Table K) (t : Dict (RemKey K) ℕ) (ks : Dict K (List (RemKey K)))
      (w : WrapNumbers K) where
    abbrev pub rewatched : WrapNumbers K
    rewatched = record {
      cache = insert dec name input w.cache;
      reminders = insert dec name t w.reminders;
      reminder_keys = insert dec name ks w.reminder_keys;
    }

    pub rewatched-IsValid :
        IsValid w → IsTracked dec (watch t ks) → IsKnown dec input (watch t ks) → IsValid rewatched
    rewatched-IsValid v h known = record {
      unwatched = λ n e. ground (
        arith,
        lookup-insert dec name n input w.cache,
        lookup-insert dec name n t w.reminders,
        lookup-insert dec name n ks w.reminder_keys,
        v.unwatched n,
      );
      watched = λ n old e. elim (dec name n) [
        | yes p ↦ (
          t,
          ks,
          ground (arith, lookup-insert dec name n t w.reminders),
          ground (arith, lookup-insert dec name n ks w.reminder_keys),
          h,
          record {
            known =
                λ k missing. known.known k (ground (arith, lookup-insert dec name n input w.cache));
          },
        )
        | no p ↦
            let (t', ks', rt, rk, h', known') =
              v.watched n old (ground (arith, lookup-insert dec name n input w.cache)) in
            (
              t',
              ks',
              ground (arith, lookup-insert dec name n t w.reminders),
              ground (arith, lookup-insert dec name n ks w.reminder_keys),
              h',
              known',
            )
      ];
    }

  -- Before any call.
  pub empty-IsValid : IsValid empty
  unfolding lookup
  empty-IsValid = record { unwatched = λ name e. (refl, refl); watched = λ name old e. absurd (cc) }
