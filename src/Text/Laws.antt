-- ===== src/Text/Laws.antt =====
-- Laws of the text operations.
use Prim.Native.String.{[], ◌∷◌}
use form_respondent_role.Prelude.{String, ◌≡◌, refl, arith}
use form_respondent_role.Text.{trim_start, trim_end, trim}

trim_end_idem : (s : String) → trim_end (trim_end s) ≡ trim_end s
unfolding trim_end
trim_end_idem [] = refl
trim_end_idem (c ∷ s) = ground (arith, trim_end_idem s)

-- A text that begins with no white space is unchanged by `trim_start`, after `trim_end` too.
trim_start-trim_end : (s : String) → trim_start (trim_end (trim_start s)) ≡ trim_end (trim_start s)
unfolding trim_start trim_end
trim_start-trim_end [] = refl
trim_start-trim_end (c ∷ s) = ground (arith, trim_start-trim_end s)

-- Trimming twice is trimming once.
pub trim_idem : (s : String) → trim (trim s) ≡ trim s
unfolding trim
trim_idem s = rw (trim_start-trim_end s) (trim_end_idem (trim_start s))
