-- ===== src/Catalog/Schedulers.antt =====
-- src/app/scheduler_catalog_service.cpp: the cache of the scheduler catalog.
use mathlib.Core.List.{Perm, append_assoc, append-nil}
use gnuradio4_control_plane.Prelude.{
  String, ◌≡◌, refl, sym, ◌∙◌, subst, Bool, true, false, Option, none, some, List, [], ◌∷◌, ◌++◌,
  ◌<>◌, Assoc, find, insert, text_lt, text_lt-asymmetric, sort, Ordered, sort-Perm, sort-Ordered,
}
use gnuradio4_control_plane.Errors.{Exec, Result, ok, err, pure, throw, ◌>>=◌, not_found_error}
use gnuradio4_control_plane.Catalog.{SchedulerDescriptor}

pub record CachedCatalog : Type 0 where
  pub schedulers : List SchedulerDescriptor
  pub exact_schedulers : Assoc SchedulerDescriptor

pub record Service (S : Type 0) : Type 0 where
  pub cached_catalog : Option CachedCatalog
  pub provider : S

unfoldable pub scheduler_before : SchedulerDescriptor → SchedulerDescriptor → Bool
scheduler_before left right = text_lt left.id right.id

-- The loop over the sorted schedulers.
unfoldable pub collect : List SchedulerDescriptor → CachedCatalog → CachedCatalog
collect [] catalog = catalog
collect (scheduler ∷ schedulers) catalog = collect schedulers (record {
  schedulers = catalog.schedulers ++ scheduler ∷ [];
  exact_schedulers = insert scheduler.id scheduler catalog.exact_schedulers;
})

unfoldable pub build_catalog : List SchedulerDescriptor → CachedCatalog
build_catalog schedulers =
    collect (sort scheduler_before schedulers) (record { schedulers = []; exact_schedulers = [] })

module _ {S : Type 0} (provider_list : Exec S (List SchedulerDescriptor)) where
  abbrev loaded :
      Result (List SchedulerDescriptor) → S → Service S → Result CachedCatalog × Service S
  loaded (err e) provider s = (err e, record s { provider = provider })
  loaded (ok schedulers) provider s = (
    ok (build_catalog schedulers),
    record { cached_catalog = some (build_catalog schedulers); provider = provider },
  )

  abbrev cached_or : Option CachedCatalog → Exec (Service S) CachedCatalog
  cached_or (some catalog) s = (ok catalog, s)
  cached_or none s = loaded (provider_list s.provider).0 (provider_list s.provider).1 s

  unfoldable pub cached_catalog : Exec (Service S) CachedCatalog
  cached_catalog s = cached_or s.cached_catalog s

  unfoldable pub list : Exec (Service S) (List SchedulerDescriptor)
  list = do catalog ← cached_catalog; pure catalog.schedulers

  abbrev scheduler_or : String → Option SchedulerDescriptor → Exec (Service S) SchedulerDescriptor
  scheduler_or id none = throw (not_found_error ("scheduler not found: " <> id))
  scheduler_or id (some scheduler) = pure scheduler

  unfoldable pub get : String → Exec (Service S) SchedulerDescriptor
  get id = do catalog ← cached_catalog; scheduler_or id (find id catalog.exact_schedulers)

collect-schedulers :
    (schedulers : List SchedulerDescriptor) (catalog : CachedCatalog)
    → (collect schedulers catalog).schedulers ≡ catalog.schedulers ++ schedulers
unfolding collect
collect-schedulers [] catalog = sym (append-nil catalog.schedulers)
collect-schedulers (scheduler ∷ schedulers) catalog =
    collect-schedulers schedulers _ ∙ append_assoc catalog.schedulers (scheduler ∷ []) schedulers

scheduler_before-asymmetric :
    (a b : SchedulerDescriptor) → scheduler_before a b ≡ true → scheduler_before b a ≡ false
unfolding scheduler_before
scheduler_before-asymmetric a b h = text_lt-asymmetric a.id b.id h

-- Where the provider lists some schedulers, the first listing answers with them, in the order of
-- their ids.
pub list-schedulers-Ordered :
    {S : Type 0} (provider_list : Exec S (List SchedulerDescriptor)) (s : Service S)
    (schedulers : List SchedulerDescriptor)
    → s.cached_catalog ≡ none
    → (provider_list s.provider).0 ≡ ok schedulers
    → (listed : List SchedulerDescriptor) × ((list provider_list s).0 ≡ ok listed)
      × Perm listed schedulers
      × Ordered scheduler_before listed
unfolding list cached_catalog build_catalog
list-schedulers-Ordered provider_list s schedulers h e =
    let answer : (list provider_list s).0 ≡ ok (build_catalog schedulers).schedulers =
      rw (h, e) refl in
    let sorted = sym (
      collect-schedulers (sort scheduler_before schedulers)
        (record { schedulers = []; exact_schedulers = [] })) in
    (
      (build_catalog schedulers).schedulers,
      answer,
      subst (λ xs. Perm xs schedulers) sorted (sort-Perm scheduler_before schedulers),
      subst (Ordered scheduler_before) sorted
          (sort-Ordered scheduler_before scheduler_before-asymmetric schedulers),
    )
