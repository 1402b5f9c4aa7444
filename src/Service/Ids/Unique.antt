-- ===== src/Service/Ids/Unique.antt =====
-- The ids that `generate_session_id` of src/app/session_service.cpp makes, and the loop of `create`
-- that draws them.
use native.Mathlib.Nat.{pow-suc}
use text.Mathlib.TextLemmas.{append_cancel_left}
use Prim.Native.Char.{Char, code}
use gnuradio4_control_plane.Prelude.{
  ℕ, zero, suc, ◌-◌, ◌/◌, ◌%◌, ◌^◌, ◌≤◌, ◌<◌, String, ◌≡◌, ◌≢◌, refl, ap, Bool, true, false, ◌&&◌,
  none, some, inl, inr, arith, nat_eq, ltb, if◌then◌else◌, ◌<>◌, ◌==◌, eq_iff, find, erase,
  find-erase, length, List, [], ◌∷◌, All, Distinct, Option-cases, Bool-cases,
}
use gnuradio4_control_plane.Domain.Session.{Session}
use gnuradio4_control_plane.Storage
use gnuradio4_control_plane.Storage.{Repository}
use gnuradio4_control_plane.Service.Ids.{unused_id, hex_digit, hex_padded, generate_session_id}

-- The value of a hexadecimal digit.
digit_value : Char → ℕ
digit_value c = if ltb (code c) 97 then code c - 48 else code c - 87

all_below : ℕ → (ℕ → Bool) → Bool
all_below zero p = true
all_below (suc n) p = p n && all_below n p

all_below-lt : (n : ℕ) (p : ℕ → Bool) (x : ℕ) → all_below n p ≡ true → x < n → p x ≡ true
unfolding all_below
all_below-lt zero p x h lt = absurd (omega arith)
all_below-lt (suc n) p x h lt = ground (arith, all_below-lt n p x)

digit_table : all_below 16 (λ d. nat_eq (digit_value (hex_digit d)) d) ≡ true
unfolding all_below digit_value hex_digit
digit_table = refl

nat_eq→≡ : (a b : ℕ) → nat_eq a b ≡ true → a ≡ b
nat_eq→≡ a b h = ground arith

digit_value-hex_digit : (d : ℕ) → d < 16 → digit_value (hex_digit d) ≡ d
digit_value-hex_digit d h = nat_eq→≡ _ _ (all_below-lt 16 _ d digit_table h)

cons-injective : (c d : Char) (s t : String) → String.◌∷◌ c s ≡ String.◌∷◌ d t → (c ≡ d) × (s ≡ t)
cons-injective c d s t e = (cc, cc)

hex_padded-injective :
    (width n m : ℕ) (s t : String)
    → n < 16 ^ width
    → m < 16 ^ width
    → hex_padded width n s ≡ hex_padded width m t
    → (n ≡ m) × (s ≡ t)
unfolding hex_padded
hex_padded-injective zero n m s t hn hm e = (omega arith, e)
hex_padded-injective (suc width) n m s t hn hm e =
    let (quotients, rests) =
      hex_padded-injective width (n / 16) (m / 16) _ _ (omega (arith, pow-suc 16 width))
        (omega (arith, pow-suc 16 width)) e in
    let (digits, same) = cons-injective _ _ s t rests in
    (
      omega (
        arith,
        quotients,
        digit_value-hex_digit (n % 16) (omega arith),
        digit_value-hex_digit (m % 16) (omega arith),
        ap digit_value digits,
      ),
      same,
    )

prefix-injective : (s t : String) → "sess_" <> s ≡ "sess_" <> t → s ≡ t
prefix-injective s t = append_cancel_left "sess_" s t

-- Two 64-bit draws that give the same id are the same draw.
pub generate_session_id-injective :
    (n m : ℕ) → n < 2 ^ 64 → m < 2 ^ 64 → generate_session_id n ≡ generate_session_id m → n ≡ m
unfolding generate_session_id
generate_session_id-injective n m hn hm e =
    (hex_padded-injective 16 n m "" "" hn hm (prefix-injective _ _ e)).0

length-erase_le : (id : String) (m : Repository) → length (erase id m) ≤ length m
unfolding erase
length-erase_le id [] = omega arith
length-erase_le id ((j, y) ∷ m) = ground (arith, length-erase_le id m)

length-erase :
    (id : String) (m : Repository) (x : Session)
    → find id m ≡ some x
    → length (erase id m) < length m
unfolding find erase
length-erase id [] x h = ground arith
length-erase id ((j, y) ∷ m) x h = elim (Bool-cases (j == id)) [
  | inl e ↦ rw e (omega (arith, length-erase_le id m))
  | inr e ↦ rw e (omega (arith, length-erase id m x (rw (e, find) at h)))
]

abbrev Taken : Repository → ℕ → Type 0
Taken m draw = (x : Session) × (find (generate_session_id draw) m ≡ some x)

-- The draws whose ids are taken are no more than the sessions.
other_id :
    (n m : ℕ)
    → n < 2 ^ 64
    → m < 2 ^ 64
    → n ≢ m
    → (generate_session_id n == generate_session_id m) ≡ false
other_id n m hn hm differ = elim (Bool-cases (generate_session_id n == generate_session_id m)) [
  | inl e ↦ absurd (differ (generate_session_id-injective n m hn hm ((eq_iff _ _).0 e)))
  | inr e ↦ e
]

still-Taken :
    (draws : List ℕ) (m : Repository) {draw : ℕ}
    → draw < 2 ^ 64
    → All (λ d. d < 2 ^ 64) draws
    → All (λ d. draw ≢ d) draws
    → All (Taken m) draws
    → All (Taken (erase (generate_session_id draw) m)) draws
still-Taken [] m range ranges differs taken = tt
still-Taken (d ∷ draws) m {draw} range ranges differs taken = (
  (
    (taken.0).0,
    rw (find-erase (generate_session_id draw) (generate_session_id d) m)
        (rw (other_id draw d range ranges.0 differs.0) (taken.0).1),
  ),
  still-Taken draws m range ranges.1 differs.1 taken.1,
)

Taken-length :
    (draws : List ℕ) (m : Repository)
    → All (λ draw. draw < 2 ^ 64) draws
    → Distinct draws
    → All (Taken m) draws
    → length draws ≤ length m
Taken-length [] m range distinct taken = omega arith
Taken-length (draw ∷ draws) m range distinct ((x, stored), taken) = omega (
  arith,
  length-erase (generate_session_id draw) m x stored,
  Taken-length draws (erase (generate_session_id draw) m) range.1 distinct.1
      (still-Taken draws m range.0 range.1 distinct.0 taken),
)

unused_id-none : (draws : List ℕ) (m : Repository) → unused_id draws m ≡ none → All (Taken m) draws
unfolding unused_id Storage.get
unused_id-none [] m h = tt
unused_id-none (draw ∷ draws) m h = elim (Option-cases (find (generate_session_id draw) m)) [
  | inl e ↦ ground arith
  | inr (x, e) ↦ ((x, e), unused_id-none draws m (rw (e, unused_id) at h))
]

-- The loop of `create` ends once it has drawn more distinct numbers than there are sessions.
pub unused_id-total :
    (draws : List ℕ) (m : Repository)
    → All (λ draw. draw < 2 ^ 64) draws
    → Distinct draws
    → length m < length draws
    → (id : String) × (unused_id draws m ≡ some id)
unused_id-total draws m range distinct more = elim (Option-cases (unused_id draws m)) [
  | inl e ↦ absurd (omega (arith, Taken-length draws m range distinct (unused_id-none draws m e)))
  | inr h ↦ h
]
