-- ===== src/Cursor/Malformed.antt =====
-- Malformed cursors.
use a2a_events_python.Common.{ℕ, ◌≡◌, ◌≢◌, refl, ◌⊎◌, some, [], ◌∷◌, ◌++◌, arith, Text}
use a2a_events_python.Errors.{raise, value_error}
use a2a_events_python.Cursor.{colon, rpartition, split}

rpartition-one :
    (topic : Text) (c : ℕ) → c ≢ colon → rpartition (topic ++ colon ∷ c ∷ []) ≡ some (topic, c ∷ [])
unfolding rpartition
rpartition-one [] c h = ground arith
rpartition-one (d ∷ topic) c h = rw (rpartition-one topic c h)

-- A cursor whose offset is one of the superscripts ² ³ ¹, after a topic name that is not empty, makes
-- the parser raise `ValueError`.
pub split-superscript :
    (topic : Text) (c : ℕ)
    → topic ≢ []
    → (c ≡ 178) ⊎ (c ≡ 179) ⊎ (c ≡ 185)
    → split (topic ++ colon ∷ c ∷ []) ≡ raise value_error
unfolding split
split-superscript [] c named h = absurd (named refl)
split-superscript (d ∷ topic) c named h = ground (arith, rpartition-one (d ∷ topic) c)
