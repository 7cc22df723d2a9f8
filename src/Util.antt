-- ===== src/Util.antt =====
-- Helpers of util.go that read and print: `ReadBytes`, `ReadString`, `Jsonify`, `Jsonify4Print`,
-- `JsonifyBytes`. The JSON library and what is read from are parameters. A JSON text is the
-- same as a string and as bytes here.
pub mod Quotes
use hraftd.Common.{ℕ, Option, [], ◌∷◌, eqb, if◌then◌else◌, ◌&&◌}
use hraftd.Common.Text.{Text}
use hraftd.World.{WithError}

-- strings.ReplaceAll with nothing for a byte, and for two bytes in a row
unfoldable pub remove_byte : ℕ → Text → Text
remove_byte a [] = []
remove_byte a (c ∷ s) = let rest = remove_byte a s in if eqb c a then rest else c ∷ rest

unfoldable pub remove_pair : ℕ → ℕ → Text → Text
remove_pair a b [] = []
remove_pair a b (c ∷ []) = c ∷ []
remove_pair a b (c ∷ d ∷ s) =
    let rest = remove_pair a b (d ∷ s) in
    let behind = remove_pair a b s in if eqb c a && eqb d b then behind else c ∷ rest

-- Marshal of the JSON library: a text, and an error that is dropped
module _ {A : Type 0} (marshal : A → WithError Text) where
  -- Jsonify and JsonifyBytes
  unfoldable pub jsonify : A → Text
  jsonify v = (marshal v).0

  -- Jsonify4Print
  unfoldable pub jsonify4print : A → Text
  jsonify4print v = remove_byte b'"' (remove_pair b'\\' b'"' (jsonify v))

-- io.ReadCloser: what can be read until its end or an error, and closing it
pub record ReadCloser : Type 1 where
  pub State : Type 0
  pub read_all : State → (Text × Option Text) × State
  pub close : State → Option Text × State

-- ReadBytes and ReadString: what was read before an error is kept, and the body is closed
unfoldable pub read_bytes : (r : ReadCloser) → r.State → Text × r.State
read_bytes r s = let ((bytes, error), s') = r.read_all s in (bytes, (r.close s').1)
