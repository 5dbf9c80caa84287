-- ===== src/Common/Text.antt =====
-- What the services do with texts.
use inventory_management_sys.Prelude.{ℕ, zero, suc, String}

-- `text[:n]`
unfoldable pub clip : ℕ → String → String
clip zero text = String.[]
clip (suc n) String.[] = String.[]
clip (suc n) (String.◌∷◌ c text) = String.◌∷◌ c (clip n text)
