-- ===== src/Provider/Handover.antt =====
-- The way of a description from `reflect_block` in the child process to the server, through
-- `reflect_block_in_subprocess` of src/catalog/gr4_block_catalog_provider.cpp.
use Prim.Native.String
use Prim.Native.String.append as append_clauses
use gnuradio4_control_plane.Prelude.{
  ℕ, zero, suc, ◌≤◌, String, Option, none, some, List, [], ◌∷◌, ◌≡◌, ◌≢◌, refl, sym, ap, subst, ◌∙◌,
  arith, All, length, ◌==◌, eq_iff, Bool-cases, inl, inr, decimal,
}
use mathlib.Core.Option.{some-ne-none}
use gnuradio4_control_plane.Errors.{ok, what}
use gnuradio4_control_plane.Results.{bind-ok, ok-injective}
use gnuradio4_control_plane.Catalog.{ℤ, pos, negsuc, BlockDescriptor}
use gnuradio4_control_plane.Settings.Values.{JsonValue}
use gnuradio4_control_plane.Provider.Model.{Values}
use gnuradio4_control_plane.Provider.Fields.{JsonFault}
use gnuradio4_control_plane.Provider.Fits.{Fits}
use gnuradio4_control_plane.Provider.Encode.{block_to_json}
use gnuradio4_control_plane.Provider.Decode.{parse_block_descriptor}
use gnuradio4_control_plane.Provider.Reread.{reread}
use gnuradio4_control_plane.Provider.RoundTrip.{parse_block_descriptor-dump}
use gnuradio4_control_plane.Provider.Reflect.{GnuRadio, reflect_block, ready_block, description}
use gnuradio4_control_plane.Provider.Reflected.{description-Fits}
use gnuradio4_control_plane.Provider.Worker.{
  leading, behind_leading, write_all, payload_of, child, forked, end_of_file, exited, received,
  invalid_or, reflect_block_in_subprocess,
}

abbrev pub IsPositive : ℤ → Type 0
IsPositive (pos n) = 1 ≤ n
IsPositive (negsuc n) = ⊥

abbrev pub characters : String → ℕ
characters String.[] = 0
characters (String.◌∷◌ c s) = suc (characters s)

leading-behind_leading : (n : ℕ) (s : String) → String.◌++◌ (leading n s) (behind_leading n s) ≡ s
unfolding leading behind_leading
leading-behind_leading zero s = rw (append_clauses.nil s) refl
leading-behind_leading (suc n) String.[] = rw (append_clauses.nil "") refl
leading-behind_leading (suc n) (String.◌∷◌ c s) =
    rw (append_clauses.cons c (leading n s) (behind_leading n s))
      (ap (String.◌∷◌ c) (leading-behind_leading n s))

characters-behind_leading : (n : ℕ) (s : String) → characters (behind_leading n s) ≤ characters s
unfolding behind_leading
characters-behind_leading zero s = omega arith
characters-behind_leading (suc n) String.[] = omega arith
characters-behind_leading (suc n) (String.◌∷◌ c s) = omega (arith, characters-behind_leading n s)

characters-behind_leading-suc :
    (n k : ℕ) (s : String) → characters s ≤ suc k → characters (behind_leading (suc n) s) ≤ k
unfolding behind_leading
characters-behind_leading-suc n k String.[] le = omega arith
characters-behind_leading-suc n k (String.◌∷◌ c s) le =
    omega (arith, le, characters-behind_leading n s)

-- Enough answers that each write something write everything.
write_all-whole :
    (answers : List ℤ) (s : String)
    → All IsPositive answers
    → characters s ≤ length answers
    → write_all answers s ≡ s
unfolding write_all leading behind_leading
write_all-whole [] String.[] h le = refl
write_all-whole [] (String.◌∷◌ c s) h le = absurd (omega (arith, le))
write_all-whole (negsuc n ∷ answers) s h le = absurd h.0
write_all-whole (pos zero ∷ answers) s h le = absurd (omega (arith, h.0))
write_all-whole (pos (suc n) ∷ answers) s h le =
    ap (λ rest. String.◌++◌ (leading (suc n) s) rest)
      (write_all-whole answers (behind_leading (suc n) s) h.1
        (characters-behind_leading-suc n (length answers) s le))
    ∙ leading-behind_leading (suc n) s

module _ (values : Values) (radio : GnuRadio values) where
  pub reflect_block-Fits :
      (pool : List radio.Loader) (id : String) (block : BlockDescriptor values.Double)
      → reflect_block values radio pool id ≡ ok block
      → Fits block
  unfolding reflect_block
  reflect_block-Fits pool id block h =
      let (ready, _, same) =
        bind-ok (ready_block values radio pool id) (λ ready. ok (description values id ready)) block
          h in
      subst Fits (ok-injective _ _ same) (description-Fits values id ready)

  module _ (fault_text : JsonFault → String) (parse : String → Option (JsonValue values.Double))
      (dump : JsonValue values.Double → String) where
    received-whole :
        (id payload : String) (block : BlockDescriptor values.Double)
        → payload ≢ ""
        → parse_block_descriptor fault_text parse payload ≡ ok block
        → received fault_text parse id payload (exited 0) ≡ ok block
    unfolding parse_block_descriptor what decimal
    received-whole id payload block filled e = elim (Bool-cases (payload == "")) [
      | inl h ↦ absurd (filled ((eq_iff payload "").0 h))
      | inr h ↦ rw h (ap (invalid_or fault_text parse id) e)
    ]

    payload-filled :
        (s : String) (v : JsonValue values.Double) → parse "" ≡ none → parse s ≡ some v → s ≢ ""
    payload-filled s v empty e h = some-ne-none v (sym e ∙ ap parse h ∙ empty)

    -- Where `reflect_block` describes a block in the child, each `write` writes something until all is
    -- written, the parent reads what was written up to its end, the child ends with its status, and
    -- the library refuses the empty text and reads its own text back with the numbers
    -- that are not negative as unsigned ones, the server has the description that the child made.
    pub reflect_block_in_subprocess-reflect_block :
        (pool : List radio.Loader) (id : String) (block : BlockDescriptor values.Double)
        (answers : List ℤ) (chunks : List String)
        → reflect_block values radio pool id ≡ ok block
        → parse "" ≡ none
        → parse (dump (block_to_json block)) ≡ some (reread (block_to_json block))
        → All IsPositive answers
        → characters (dump (block_to_json block)) ≤ length answers
        → payload_of chunks ≡ (child dump answers (reflect_block values radio pool id)).0
        → reflect_block_in_subprocess fault_text parse id (
            forked chunks end_of_file
              (exited (child dump answers (reflect_block values radio pool id)).1))
          ≡ ok block
    unfolding reflect_block_in_subprocess child parse_block_descriptor what decimal payload_of
    reflect_block_in_subprocess-reflect_block pool id block answers chunks e empty back h le sent =
        let json = block_to_json block in
        let whole : payload_of chunks ≡ dump json =
          sent ∙ ap (λ r. (child dump answers r).0) e ∙ write_all-whole answers (dump json) h le in
        let parsed =
          parse_block_descriptor-dump values.Double fault_text parse dump block back
            (reflect_block-Fits pool id block e) in
        ap (λ r. received fault_text parse id (payload_of chunks) (exited (child dump answers r).1))
          e
        ∙ ap (λ s. received fault_text parse id s (exited 0)) whole
        ∙ received-whole id (dump json) block (payload-filled (dump json) _ empty back) parsed
