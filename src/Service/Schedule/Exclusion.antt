-- ===== src/Service/Schedule/Exclusion.antt =====
-- The invariant of `SessionService` (src/app/session_service.cpp) under interleaving: what it is, and
-- the proof that every event keeps it.
use gnuradio4_control_plane.Prelude.{
  ℕ, zero, suc, ◌+◌, String, ◌≡◌, refl, true, false, inl, inr, Option, none, some, List, [], ◌∷◌,
  arith, find, insert, find-insert, find-erase, if◌then◌else◌, ◌==◌, eq_iff, Option-cases, All,
  subst,
}
use mathlib.Core.Option.{some-injective}
use gnuradio4_control_plane.Errors.{Result, ok, err}
use gnuradio4_control_plane.Domain.Session.{Session}
use gnuradio4_control_plane.Service.State.{Phase, World, phase_for, idle}
use gnuradio4_control_plane.Service.Ids.{create}
use gnuradio4_control_plane.Service.Schedule.{
  Request, Call, System, Event, creates, begins, comes_back, ends, end, pick, step, run,
  after_create,
}
use gnuradio4_control_plane.Service.Schedule.Begin.{is_busy, begin_cases, phase_of_request}
use gnuradio4_control_plane.Service.Schedule.Create.{create_cases, new_session, Keeps}
use gnuradio4_control_plane.Service.Schedule.End.{agrees, cleared, Settles, end_cases}

-- The calls in flight on a session.
unfoldable pub in_flight : String → List Call → ℕ
in_flight id [] = 0
in_flight id (c ∷ calls) = (if c.id == id then 1 else 0) + in_flight id calls

abbrev pub busy_count : Phase → ℕ
busy_count p = if is_busy p then 1 else 0

-- What the repository, the phases and the calls in flight hold of one id.
abbrev pub Fits : String → Option Session → Option Phase → ℕ → Type 0
Fits id none none n = n ≡ 0
Fits id none (some p) n = ⊥
Fits id (some x) none n = ⊥
Fits id (some x) (some p) n = (x.id ≡ id) × (n ≡ busy_count p) × (agrees p x.state ≡ true)

abbrev pub Owns : Call → Type 0
Owns c = c.session.id ≡ c.id

pub record Inv {R : Type 0} (s : System R) : Type 0 where
  pub fits :
      (id : String)
      → Fits id (find id s.world.repository) (find id s.world.phases) (in_flight id s.calls)
  pub owned : All Owns s.calls

in_flight-pick :
    (id : String) (n : ℕ) (calls others : List Call) (c : Call)
    → pick n calls ≡ some (c, others)
    → in_flight id calls ≡ (if c.id == id then 1 else 0) + in_flight id others
unfolding in_flight pick
in_flight-pick id n [] others c e = ground arith
in_flight-pick id zero (d ∷ calls) others c e = ground arith
in_flight-pick id (suc n) (d ∷ calls) others c e = elim (Option-cases (pick n calls)) [
  | inl f ↦ ground arith
  | inr (r, f) ↦ ground (arith, in_flight-pick id n calls r.1 r.0 f)
]

pub owned-pick :
    (n : ℕ) (calls others : List Call) (c : Call)
    → pick n calls ≡ some (c, others)
    → All Owns calls
    → Owns c × All Owns others
unfolding pick
owned-pick n [] others c e h = ground arith
owned-pick zero (d ∷ calls) others c e h =
    subst (λ (r : Call × List Call). Owns r.0 × All Owns r.1) (some-injective _ _ e) h
owned-pick (suc n) (d ∷ calls) others c e h = elim (Option-cases (pick n calls)) [
  | inl f ↦ ground arith
  | inr (r, f) ↦
      let ih = owned-pick n calls r.1 r.0 f h.1 in
      subst (λ (r : Call × List Call). Owns r.0 × All Owns r.1)
        (some-injective _ _ (rw (f, pick) at e)) (ih.0, (h.0, ih.1))
]

module _ {R : Type 0} (s : System R) (v : Inv s) (id : String) (x : Session)
    (stored : find id s.world.repository ≡ some x)
    (free : is_busy (phase_for s.world.phases x) ≡ false) where
  abbrev after_taken : Request → System R
  after_taken request = record {
    world = record s.world { phases = insert id (phase_of_request request) s.world.phases };
    calls = record { request = request; id = id; session = x; result = none } ∷ s.calls;
  }

  taken-keyed : x.id ≡ id
  taken-keyed = ground (arith, v.fits id)

  taken-Inv : (request : Request) → Inv (after_taken request)
  unfolding in_flight phase_for
  taken-Inv request = record {
    fits = λ j. ground (
      arith,
      v.fits j,
      find-insert id j (phase_of_request request) s.world.phases,
      eq_iff id j,
      taken-keyed,
    );
    owned = (taken-keyed, v.owned);
  }

-- The two ways in which a call leaves, at any system whose world is `w'`.
module _ {R : Type 0} (s : System R) (v : Inv s) (n now : ℕ) (c : Call) (others : List Call)
    (r : Result (Unit {0})) (picked : pick n s.calls ≡ some (c, others)) where
  abbrev ended : World R
  ended = (end c.request c.id c.session r now s.world).1

  abbrev after_end : System R
  after_end = record { world = ended; calls = others }

  -- A call in flight holds a session that exists.
  pub holds :
      (x : Session) × (find c.id s.world.repository ≡ some x)
      × (x.id ≡ c.id)
      × (in_flight c.id others ≡ 0)
  holds = elim (Option-cases (find c.id s.world.repository)) [
    | inl f ↦
        ground
          (arith, f, v.fits c.id, in_flight-pick c.id n s.calls others c picked, eq_iff c.id c.id)
    | inr (x, f) ↦ (
      x,
      f,
      ground (arith, f, v.fits c.id),
      ground
          (arith, f, v.fits c.id, in_flight-pick c.id n s.calls others c picked, eq_iff c.id c.id),
    )
  ]

  settled-Inv : Settles s.world c.id ended → Inv after_end
  settled-Inv (y, p, e, keyed, free, agree) = record {
    fits = λ j. rw e (
        ground (
          arith,
          v.fits j,
          in_flight-pick j n s.calls others c picked,
          holds.3,
          find-insert c.id j y s.world.repository,
          find-insert c.id j p s.world.phases,
          eq_iff c.id j,
        ));
    owned = (owned-pick n s.calls others c picked v.owned).1;
  }

  cleared-Inv : ended ≡ cleared s.world c.id → Inv after_end
  cleared-Inv e = record {
    fits = λ j. rw e (
        ground (
          arith,
          v.fits j,
          in_flight-pick j n s.calls others c picked,
          holds.3,
          find-erase c.id j s.world.repository,
          find-erase c.id j s.world.phases,
          eq_iff c.id j,
        ));
    owned = (owned-pick n s.calls others c picked v.owned).1;
  }

  left-Inv : Inv after_end
  left-Inv =
      let (x, stored, keyed, alone) = holds in
      elim (end_cases c.id c.session x now s.world (owned-pick n s.calls others c picked v.owned).0
        stored keyed c.request r) [ inl h ↦ settled-Inv h | inr h ↦ cleared-Inv h ]

after_create-Keeps :
    {R : Type 0} (s : System R) (r : Option (Result Session × World R))
    → Keeps s.world r
    → after_create s r ≡ s
after_create-Keeps s none k = refl
after_create-Keeps s (some (ok x, w)) k = absurd k
after_create-Keeps s (some (err e, w)) k = rw k

module _ {R : Type 0} (s : System R) (v : Inv s) where
  begins-Inv : (request : Request) (id : String) → Inv (step (begins request id) s)
  unfolding step
  begins-Inv request id = elim (begin_cases id s.world s.calls request) [
    | inl (x, stored, free, e) ↦ rw e (taken-Inv s v id x stored free request)
    | inr e ↦ rw e v
  ]

  comes_back-Inv :
      (n : ℕ) (runtime : R) (result : Result (Unit {0}))
      → Inv (step (comes_back n runtime result) s)
  unfolding step in_flight
  comes_back-Inv n runtime result = elim (Option-cases (pick n s.calls)) [
    | inl f ↦ rw f v
    | inr (r, f) ↦ elim (Option-cases (r.0).result) [
      | inl g ↦
          rw (f, g)
            (record {
              fits = λ j. ground (arith, v.fits j, in_flight-pick j n s.calls r.1 r.0 f);
              owned = owned-pick n s.calls r.1 r.0 f v.owned;
            })
      | inr (q, g) ↦ rw (f, g) v
    ]
  ]

  ends-Inv : (n now : ℕ) → Inv (step (ends n now) s)
  unfolding step
  ends-Inv n now = elim (Option-cases (pick n s.calls)) [
    | inl f ↦ rw f v
    | inr (r, f) ↦ elim (Option-cases (r.0).result) [
      | inl g ↦ rw (f, g) v
      | inr (q, g) ↦ rw (f, g) (left-Inv s v n now r.0 r.1 q f)
    ]
  ]

  creates-Inv :
      (name grc : String) (alias : Option String) (draws : List ℕ) (now : ℕ)
      → Inv (step (creates name grc alias draws now) s)
  unfolding step
  creates-Inv name grc alias draws now = elim (create_cases name grc alias draws now s.world) [
    | inl (id, fresh, e) ↦ rw e (record {
      fits = λ j. ground (
        arith,
        v.fits j,
        find-insert id j (new_session name grc alias now id) s.world.repository,
        find-insert id j idle s.world.phases,
        eq_iff id j,
      );
      owned = v.owned;
    })
    | inr k ↦ rw (after_create-Keeps s (create name grc alias draws now s.world) k) v
  ]

module _ {R : Type 0} where
  step-Inv : (event : Event R) (s : System R) → Inv s → Inv (step event s)
  step-Inv (creates name grc alias draws now) s v = creates-Inv s v name grc alias draws now
  step-Inv (begins request id) s v = begins-Inv s v request id
  step-Inv (comes_back n runtime result) s v = comes_back-Inv s v n runtime result
  step-Inv (ends n now) s v = ends-Inv s v n now

  -- Every interleaving keeps the invariant.
  pub run-Inv : (events : List (Event R)) (s : System R) → Inv s → Inv (run events s)
  unfolding run
  run-Inv [] s v = v
  run-Inv (event ∷ events) s v = run-Inv events (step event s) (step-Inv event s v)
