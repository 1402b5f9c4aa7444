-- ===== src/Provider/Aliases.antt =====
-- The schedulers that src/catalog/gr4_scheduler_catalog_provider.cpp lists: the ids without a
-- template's arguments.
use gnuradio4_control_plane.Prelude.{
  String, true, List, [], ◌∷◌, ◌≡◌, refl, sym, ap, subst, ◌∙◌, text_lt, sort, unique, Increasing,
  unique-sort-Increasing, unique-sort-All, unique-sort-All_back, All, Bool-cases, inl, inr,
}
use mathlib.Core.Bool.{false≢true}
use gnuradio4_control_plane.Errors.{ok}
use gnuradio4_control_plane.Results.{ok-injective, err≢ok}
use gnuradio4_control_plane.Catalog.{SchedulerDescriptor}
use gnuradio4_control_plane.Provider.Schedulers.{
  is_alias_scheduler_id, aliases, descriptors_of, described, describe_schedulers,
}

abbrev pub scheduler_ids : List SchedulerDescriptor → List String
scheduler_ids [] = []
scheduler_ids (scheduler ∷ schedulers) = scheduler.id ∷ scheduler_ids schedulers

module _ (P : String → Type 0) where
  aliases-All : (ids : List String) → All P ids → All P (aliases ids)
  unfolding aliases
  aliases-All [] h = tt
  aliases-All (id ∷ ids) h = elim (Bool-cases (is_alias_scheduler_id id)) [
    | inl e ↦ rw (e, aliases) (h.0, aliases-All ids h.1)
    | inr e ↦ rw (e, aliases) (aliases-All ids h.1)
  ]

  aliases-All_back :
      (ids : List String)
      → All P (aliases ids)
      → All (λ id. is_alias_scheduler_id id ≡ true → P id) ids
  unfolding aliases
  aliases-All_back [] h = tt
  aliases-All_back (id ∷ ids) h = elim (Bool-cases (is_alias_scheduler_id id)) [
    | inl e ↦ let (here, rest) = rw (e, aliases) at h in (λ _. here, aliases-All_back ids rest)
    | inr e ↦ (λ a. absurd (false≢true (sym e ∙ a)), aliases-All_back ids (rw (e, aliases) at h))
  ]

aliases-true : (ids : List String) → All (λ id. is_alias_scheduler_id id ≡ true) (aliases ids)
unfolding aliases
aliases-true [] = tt
aliases-true (id ∷ ids) = elim (Bool-cases (is_alias_scheduler_id id)) [
  | inl e ↦ rw (e, aliases) (e, aliases-true ids)
  | inr e ↦ rw (e, aliases) (aliases-true ids)
]

aliases-Increasing : (ids : List String) → Increasing ids → Increasing (aliases ids)
unfolding aliases
aliases-Increasing [] h = tt
aliases-Increasing (id ∷ ids) h = elim (Bool-cases (is_alias_scheduler_id id)) [
  | inl e ↦
      rw (e, aliases)
        (aliases-All (λ later. text_lt id later ≡ true) ids h.0, aliases-Increasing ids h.1)
  | inr e ↦ rw (e, aliases) (aliases-Increasing ids h.1)
]

scheduler_ids-descriptors_of : (ids : List String) → scheduler_ids (descriptors_of ids) ≡ ids
unfolding descriptors_of
scheduler_ids-descriptors_of [] = refl
scheduler_ids-descriptors_of (id ∷ ids) = ap (◌∷◌ id) (scheduler_ids-descriptors_of ids)

described-ids :
    (ids : List String) (listed : List SchedulerDescriptor)
    → described ids ≡ ok listed
    → ids ≡ scheduler_ids listed
unfolding descriptors_of
described-ids [] listed h = absurd (err≢ok _ _ h)
described-ids (id ∷ ids) listed h =
    sym (scheduler_ids-descriptors_of (id ∷ ids)) ∙ ap scheduler_ids (ok-injective _ _ h)

-- Where the ids that the loader knows are described, the listed ids strictly increase, each is an
-- alias, what holds of all known ids holds of them, and what holds of them holds of every known
-- alias.
pub describe_schedulers-aliases :
    (ids : List String) (listed : List SchedulerDescriptor)
    → describe_schedulers ids ≡ ok listed
    → Increasing (scheduler_ids listed)
      × All (λ id. is_alias_scheduler_id id ≡ true) (scheduler_ids listed)
      × ((P : String → Type 0) → All P ids → All P (scheduler_ids listed))
      × ((P : String → Type 0)
          → All P (scheduler_ids listed)
          → All (λ id. is_alias_scheduler_id id ≡ true → P id) ids)
unfolding describe_schedulers
describe_schedulers-aliases ids listed h =
    let same = described-ids (aliases (unique (sort text_lt ids))) listed h in
    (
      subst Increasing same (aliases-Increasing _ (unique-sort-Increasing ids)),
      subst (All (λ id. is_alias_scheduler_id id ≡ true)) same
          (aliases-true (unique (sort text_lt ids))),
      λ P all. subst (All P) same (aliases-All P _ (unique-sort-All P ids all)),
      λ P all. unique-sort-All_back _ ids (aliases-All_back P _ (subst (All P) (sym same) all)),
    )
