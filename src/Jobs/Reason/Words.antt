-- ===== src/Jobs/Reason/Words.antt =====
-- The reasons and their words.
use Prim.Native.String.{String}
use text.Mathlib.TextEquality.{eq_iff}
use br_jobs_runner_kit.Prelude.{◌≡◌, refl, ◌↔◌, true, List, [], ◌∷◌, arith, All}
use br_jobs_runner_kit.Jobs.Reason.{RefusalReason, as_str, reasons, match_word, from_word, eq}

abbrev Spells : String × RefusalReason → Type 0
Spells arm = as_str arm.1 ≡ arm.0

as_str-match_word :
    (arms : List (String × RefusalReason)) (word : String)
    → All Spells arms
    → as_str (match_word arms word) ≡ word
unfolding match_word
as_str-match_word [] word h = unfold as_str in refl
as_str-match_word ((text, reason) ∷ arms) word h =
    ground (arith, eq_iff word text, h.0, as_str-match_word arms word h.1)

reasons-Spells : All Spells reasons
unfolding as_str
reasons-Spells = ground arith

-- A word is kept through the type: whatever text the wire has, the reason made of it has that
-- text as its word, whether the reason is a typed one or not.
pub as_str-from_word : (word : String) → as_str (from_word word) ≡ word
unfolding from_word
as_str-from_word word = as_str-match_word reasons word reasons-Spells

-- Two reasons that were made from texts count as equal exactly if the texts are the same.
pub eq-from_word : (a b : String) → (eq (from_word a) (from_word b) ≡ true) ↔ (a ≡ b)
unfolding eq
eq-from_word a b = rw (as_str-from_word a, as_str-from_word b) (eq_iff a b)

-- The word of each typed reason, and of no other text, makes that reason again.
pub from_word-reasons : All (λ arm. from_word (as_str arm.1) ≡ arm.1) reasons
unfolding from_word as_str
from_word-reasons = ground arith
